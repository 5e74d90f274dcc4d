-- ===== src/Programs/Pages/Identity.antt =====
-- The sections of the identity program's page (wasm_programs/identity_card/ui/components): the form
-- (registration-form.tsx), the gallery (identity-gallery.tsx) and the statistics (stats-section.tsx).
pub mod Outcomes
pub mod Overtaking
use onvm.Base.{String, Bool, true, false, Option, none, some, if◌then◌else◌}
use onvm.Base.Texts.{present, or_text}
use onvm.Sdk.Errors.{Fault, message_of}
use onvm.Sdk.Client.{Session}
use onvm.Programs.Identity.{IdentityOp, perform}
use onvm.Programs.Pages.{Page, call, set}
use onvm.Js.Value.{Value, undefined, null, num, str, peek, show_value}
use onvm.Js.Result.{Result, ok, throw, member}
use onvm.Js.Io.{Io, pure, lift, catch, ◌>>=◌, ◌>>◌}
use onvm.Js.Platform.{Platform}

pub record Form : Type 0 where
  pub name : String
  pub email : String
  pub bio : String
  pub avatar_url : String
  pub theme : String
  pub loading : Bool
  pub result : Value
  pub error : Option String

pub record Gallery : Type 0 where
  pub identities : Value
  pub loading : Bool
  pub error : Option String
  pub selected_identity : Value
  pub identity_card_svg : Value
  pub card_loading : Bool

record Stats : Type 0 where
  pub total_identities : Value
  pub total_storage_bytes : Value
  pub merkle_root : Value
  pub loading : Bool
  pub error : Option String

-- `err.message || fallback`
abbrev pub error_text : Fault → String → String
error_text e fallback = or_text (some (message_of e)) fallback

-- `try { m } catch (err) { set(failed) } finally { set(done) }`
abbrev pub attempt :
    {V : Type 0} → (Fault → V → V) → (V → V) → Io (Page V) (Unit {0}) → Io (Page V) (Unit {0})
attempt failed done m s = (
  (catch m (λ e. set (failed e)) s).0,
  record (catch m (λ e. set (failed e)) s).1 {
    view = done (catch m (λ e. set (failed e)) s).1.view;
  },
)

abbrev pub start_form : Form → Form
start_form v = record v { loading = true; result = null; error = none }

abbrev pub stop_form : Form → Form
stop_form v = record v { loading = false }

abbrev pub fail_form : Fault → Form → Form
fail_form e v = record v { error = some (error_text e "Failed to register identity") }

abbrev start_gallery : Gallery → Gallery
start_gallery v = record v { loading = true; error = none }

abbrev stop_gallery : Gallery → Gallery
stop_gallery v = record v { loading = false }

abbrev fail_gallery : Fault → Gallery → Gallery
fail_gallery e v = record v { error = some (error_text e "Failed to load identities") }

-- What a click on an identity changes at once.
abbrev pub select : (identity : Value) → Gallery → Gallery
select identity v = record v {
  card_loading = true;
  selected_identity = identity;
  identity_card_svg = null;
}

abbrev pub stop_card : Gallery → Gallery
stop_card v = record v { card_loading = false }

abbrev pub fail_card : Fault → Gallery → Gallery
fail_card e v = record v { identity_card_svg = null }

abbrev fail_stats : Fault → Stats → Stats
fail_stats e v = record v { error = some (error_text e "Failed to load statistics") }

abbrev stop_stats : Stats → Stats
stop_stats v = record v { loading = false }

-- The request of the form; empty fields are left out.
abbrev pub register_op : Form → IdentityOp
register_op v = IdentityOp.register_identity (record {
  name = v.name;
  email = v.email;
  bio = present (some v.bio);
  avatar_url = present (some v.avatar_url);
  theme = present (some v.theme);
})

-- What the reply to the request for a card changes.
abbrev pub show_card : Value → Io (Page Gallery) (Unit {0})
show_card response =
    lift (member response "card_svg") >>= λ svg. set (λ v. record v { identity_card_svg = svg })

module _ (encode_uri : String → String) (p : Platform) (program_id : String) where
  pub handle_submit : Io (Page Form) (Unit {0})
  handle_submit s =
      (set start_form
          >> attempt fail_form stop_form (
              call (perform encode_uri p program_id (register_op s.view)) >>= λ response.
              set (λ v. record v { result = response })))
        s

  unfoldable load_identities : Io (Page Gallery) (Unit {0})
  load_identities =
      set start_gallery
      >> attempt fail_gallery stop_gallery (
          call (perform encode_uri p program_id IdentityOp.list_all_identities) >>= λ response.
          lift (member response "identities") >>= λ identities.
          set (λ v. record v { identities = identities }))

  pub load_identity_card : (identity : Value) → Io (Page Gallery) (Unit {0})
  load_identity_card identity =
      set (select identity)
      >> attempt fail_card stop_card (
          lift (member identity "id") >>= λ id.
          call (
            perform encode_uri p program_id
              (IdentityOp.get_identity_card (show_value id) (some "svg")))
          >>= show_card)

  unfoldable load_stats : Io (Page Stats) (Unit {0})
  load_stats =
      set (λ v. record v { loading = true; error = none })
      >> attempt fail_stats stop_stats (
          call (perform encode_uri p program_id IdentityOp.get_stats) >>= λ response.
          lift (member response "total_identities") >>= λ total_identities.
          lift (member response "total_storage_bytes") >>= λ total_storage_bytes.
          lift (member response "merkle_root") >>= λ merkle_root. set (λ v. record v {
            total_identities = total_identities;
            total_storage_bytes = total_storage_bytes;
            merkle_root = merkle_root;
          }))
