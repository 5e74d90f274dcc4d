-- ===== src/Nbook/Pages.antt =====
-- The pages of the site (wasm_programs/nbook/ui/components and app). A page keeps the state of its
-- component, the messages shown to the user, and the addresses that it moved to; its handlers run
-- requests on the browser. A handler reads the state of the render in which it was made, which is
-- the state at its start.
pub mod Attempt
pub mod Effects
pub mod Keeps
pub mod Card
pub mod Feed
pub mod Uploads
pub mod CreatePost
pub mod Account
pub mod Panel
pub mod Menu
pub mod Detail
pub mod Profile
use onvm.Base.{◌≡◌, String, Bool, Option, none, some, List, [], ◌∷◌}
use onvm.Sdk.Errors.{Fault, message_of}
use onvm.Nbook.Client.{Browser}
use onvm.Js.Result.{Result, ok}
use onvm.Js.Io.{Io, catch}

pub data Variant : Type 0 where
  standard destructive : Variant

-- The argument of `toast`.
pub record Toast : Type 0 where
  pub title : String
  pub description : Option String
  pub variant : Variant

pub record Page (V : Type 0) : Type 0 where
  pub browser : Browser
  pub view : V
  pub toasts : List Toast
  pub pushed : List String

-- `toast({ title, description: e.message, variant: "destructive" })`; everything that the code
-- throws is an Error.
abbrev pub failure : String → Fault → Toast
failure title e = record {
  title = title;
  description = some (message_of e);
  variant = Variant.destructive;
}

abbrev pub notice : String → Toast
notice title = record { title = title; description = none; variant = Variant.standard }

module _ {V : Type 0} where
  -- An action on the browser.
  abbrev pub call : {A : Type 0} → Io Browser A → Io (Page V) A
  call m s = ((m s.browser).0, record s { browser = (m s.browser).1 })

  -- A change of the component's state.
  abbrev pub set : (V → V) → Io (Page V) (Unit {0})
  set f s = (ok tt, record s { view = f s.view })

  abbrev pub toast : Toast → Io (Page V) (Unit {0})
  toast t s = (ok tt, record s { toasts = t ∷ s.toasts })

  -- `router.push(address)`
  abbrev pub push : String → Io (Page V) (Unit {0})
  push address s = (ok tt, record s { pushed = address ∷ s.pushed })

  -- `try { m } finally { set(f) }`
  abbrev pub finally : {A : Type 0} → Io (Page V) A → (V → V) → Io (Page V) A
  finally m f s = ((m s).0, record (m s).1 { view = f (m s).1.view })

  -- `try { m } catch (e) { toast(title, e) } finally { set(done) }`
  abbrev pub attempt : String → (V → V) → Io (Page V) (Unit {0}) → Io (Page V) (Unit {0})
  attempt title done m = finally (catch m (λ e. toast (failure title e))) done
