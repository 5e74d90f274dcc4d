-- ===== src/Nbook/Pages/Card/Sharing.antt =====
-- The buttons of a card that copy and share (wasm_programs/nbook/ui/components/feed/post-card.tsx).
use package.text.Mathlib.Text.{◌==◌}
use onvm.Base.{◌≡◌, refl, String, true, false, arith, some, List, [], ◌∷◌, ◌++◌, if◌then◌else◌}
use onvm.Sdk.Errors.{Fault, name_of}
use onvm.Nbook.Pages.{Page, Toast, Variant, set, toast, notice, failure, finally}
use onvm.Nbook.Pages.Card.State.{Card}
use onvm.Nbook.Pages.Card.Text.{share_url}
use onvm.Js.Value.{Value, peek}
use onvm.Js.Result.{Result, ok, throw}
use onvm.Js.Io.{Io, pure, lift, catch, ◌>>◌}

-- The clipboard and the share sheet of the device.
pub record Device : Type 0 where
  pub write_text : String → Result (Unit {0})
  pub share : (title : String) (text : Value) (url : String) → Result (Unit {0})

abbrev open_share : Card → Card
open_share c = record c { share_open = true }

abbrev close_share : Card → Card
close_share c = record c { share_open = false }

abbrev start_sharing : Card → Card
start_sharing c = record c { sharing = true }

abbrev stop_sharing : Card → Card
stop_sharing c = record c { sharing = false }

-- The error of a user who closes the share sheet is not shown.
abbrev share_failed : Fault → Io (Page Card) (Unit {0})
share_failed e = if name_of e == "AbortError" then pure tt else toast (failure "Share failed" e)

unfoldable copy_attachment_id : Device → (blob_id_hex : String) → Io (Page Card) (Unit {0})
copy_attachment_id device blob_id_hex =
    catch (lift (device.write_text blob_id_hex) >> toast (notice "Attachment ID copied")) (λ e.
      toast (record {
        title = "Copy failed";
        description = some "Could not copy attachment id.";
        variant = Variant.destructive;
      }))

module _ (device : Device) (encode : String → String) (base : String) where
  open device use {write_text, share}

  unfoldable copy_link : Io (Page Card) (Unit {0})
  copy_link s =
      catch
        (lift (write_text (share_url encode base s.view.local_post))
          >> toast (notice "Link copied"))
        (λ e. toast (failure "Copy failed" e)) s

  -- The button is disabled while `sharing`.
  unfoldable share_via_device : Io (Page Card) (Unit {0})
  share_via_device s =
      if s.view.sharing
      then pure tt s
      else (set start_sharing
            >> finally
                (catch
                  (lift (
                    share "Check this post" (peek s.view.local_post "text")
                      (share_url encode base s.view.local_post)))
                  share_failed)
                stop_sharing)
          s

-- The message on the end of sharing.
abbrev sharing_toasts : Result (Unit {0}) → List Toast
sharing_toasts (ok u) = []
sharing_toasts (throw e) = if name_of e == "AbortError" then [] else failure "Share failed" e ∷ []

shared_reply :
    (r : Result (Unit {0})) (s : Page Card)
    → finally (catch (lift r) share_failed) stop_sharing s
      ≡ (ok tt, record s { view = stop_sharing s.view; toasts = sharing_toasts r ++ s.toasts })
shared_reply (ok u) s = refl
shared_reply (throw e) s = ground arith

module _ (device : Device) (encode : String → String) (base : String) where
  -- Sharing ends with the button enabled again; an error is shown unless the user closed the share
  -- sheet, and nothing else of the page changes.
  share_via_device_lem :
      (s : Page Card)
      → s.view.sharing ≡ false
      → share_via_device device encode base s ≡ (
        ok tt,
        record s {
          view = stop_sharing s.view;
          toasts =
              sharing_toasts (
                device.share "Check this post"
                  (peek s.view.local_post "text")
                  (share_url encode base s.view.local_post))
              ++ s.toasts;
        },
      )
  unfolding share_via_device
  share_via_device_lem s idle = rw idle (
      shared_reply
        (device.share "Check this post" (peek s.view.local_post "text")
          (share_url encode base s.view.local_post))
        (record s { view = start_sharing s.view }))
