-- ===== src/Nbook/Pages/Profile/Handlers.antt =====
-- The handlers of the profile page.
use onvm.Base.{not, ◌||◌, String, Bool, true, false, Option, none, some, [], ◌∷◌, if◌then◌else◌}
use onvm.Base.Texts.{concat}
use onvm.Nbook.Client.{upload_blob}
use onvm.Nbook.Api.{
  follow_user, unfollow_user, get_profile, update_profile, list_following, list_followers,
}
use onvm.Nbook.Pages.{Page, Toast, Variant, call, set, toast, notice, failure, attempt}
use onvm.Nbook.Pages.Profile.{Profile, Modal, with_follower, without_follower}
use onvm.Js.Value.{Value, truthy, show_value}
use onvm.Js.Result.{member}
use onvm.Js.Io.{Io, pure, lift, gets, catch, ◌>>=◌, ◌>>◌}
use onvm.Js.Platform.{Platform, Bytes}

abbrev pub start_follow : Profile → Profile
start_follow v = record v { follow_busy = true }

abbrev pub stop_follow : Profile → Profile
stop_follow v = record v { follow_busy = false }

abbrev sign_in : Toast
sign_in = record {
  title = "Please log in";
  description = some "You need to be signed in to follow people.";
  variant = Variant.standard;
}

abbrev pub unfollowed : (user name : Value) → Io (Page Profile) (Unit {0})
unfollowed user name =
    set (λ v. record v { is_following = false; profile = without_follower user v.profile })
    >> toast (notice (concat ("Unfollowed " ∷ show_value name ∷ [])))

abbrev pub followed : (user name : Value) → Io (Page Profile) (Unit {0})
followed user name =
    set (λ v. record v { is_following = true; profile = with_follower user v.profile })
    >> toast (notice (concat ("Following " ∷ show_value name ∷ [])))

-- `v || undefined` of a field of the form.
abbrev form_field : Value → Option String
form_field v = if truthy v then some (show_value v) else none

module _ (p : Platform) (program_id : String) where
  abbrev pub change_follow : Bool → (user name : Value) → Io (Page Profile) (Unit {0})
  change_follow true user name =
      call (unfollow_user p program_id (show_value name)) >> unfollowed user name
  change_follow false user name =
      call (follow_user p program_id (show_value name)) >> followed user name

  -- The `try` block of `toggleFollow`.
  abbrev toggle_request : Bool → (user profile : Value) → Io (Page Profile) (Unit {0})
  toggle_request following user profile =
      lift (member profile "username") >>= λ name. change_follow following user name

  abbrev pub toggle_with : (user profile : Value) → Bool → Io (Page Profile) (Unit {0})
  toggle_with user profile following =
      if not (truthy user) || not (truthy profile)
      then toast sign_in
      else (set start_follow
          >> attempt "Follow action failed" stop_follow (toggle_request following user profile))

  unfoldable pub toggle_follow : Io (Page Profile) (Unit {0})
  toggle_follow s = toggle_with s.view.session_user s.view.profile s.view.is_following s

  -- The two buttons that open a list.
  unfoldable show_following : Io (Page Profile) (Unit {0})
  show_following s =
      if truthy s.view.session_user
      then (set (λ v. record v { list_loading = true })
            >> attempt "Failed to load following" (λ v. record v { list_loading = false })
                (do
                  name ← lift (member s.view.profile "username")
                  users ← call (list_following p program_id (show_value name) 50)
                  set (λ v. record v {
                    following_list = users;
                    follower_modal_open = Modal.following;
                  })))
          s
      else pure tt s

  unfoldable show_followers : Io (Page Profile) (Unit {0})
  show_followers s =
      if truthy s.view.session_user
      then (set (λ v. record v { list_loading = true })
            >> attempt "Failed to load followers" (λ v. record v { list_loading = false })
                (do
                  name ← lift (member s.view.profile "username")
                  users ← call (list_followers p program_id (show_value name) 50)
                  set (λ v. record v {
                    follower_list = users;
                    follower_modal_open = Modal.followers;
                  })))
          s
      else pure tt s

  -- The file inputs; without a file nothing happens.
  unfoldable upload_avatar : Option Bytes → Io (Page Profile) (Unit {0})
  upload_avatar none = pure tt
  upload_avatar (some file) =
      catch
        (do
          id ← call (upload_blob p program_id file)
          set (λ v. record v { avatar_blob_id = id })
          toast (notice "Avatar uploaded"))
        (λ e. toast (failure "Upload failed" e))

  unfoldable upload_banner : Option Bytes → Io (Page Profile) (Unit {0})
  upload_banner none = pure tt
  upload_banner (some file) =
      catch
        (do
          id ← call (upload_blob p program_id file)
          set (λ v. record v { banner_blob_id = id })
          toast (notice "Banner uploaded"))
        (λ e. toast (failure "Upload failed" e))

  -- The button "Save changes": the update, then the profile is read again.
  unfoldable save_changes : Io (Page Profile) (Unit {0})
  save_changes =
      catch
        (do
          v ← gets (λ s. s.view)
          call (
              update_profile p program_id (form_field v.display_name) (form_field v.bio)
                (form_field v.avatar_blob_id) (form_field v.banner_blob_id))
          toast (notice "Profile updated")
          set (λ w. record w { editing = false })
          name ← lift (member v.profile "username")
          updated ← call (get_profile p program_id (show_value name))
          set (λ w. record w { profile = updated }))
        (λ e. toast (failure "Update failed" e))

  -- The button "Follow back" of one follower.
  unfoldable follow_back : (user : Value) → Io (Page Profile) (Unit {0})
  follow_back user =
      catch
        (do
          name ← lift (member user "username")
          call (follow_user p program_id (show_value name))
          toast (notice (concat ("Followed back " ∷ show_value name ∷ []))))
        (λ e. toast (failure "Follow back failed" e))
