-- ===== src/Programs/Pages/Roster/Adding.antt =====
-- The requests of the three lists: a fetch always ends, and a form is kept until it was stored.
use onvm.Base.{◌≡◌, refl, String, Bool, true, false, if◌then◌else◌, Bool-cases, inl, inr}
use onvm.Sdk.Client.{Session}
use onvm.Programs.School.{perform}
use onvm.Programs.Pages.{Page, call, set, attempt, has_data}
use onvm.Programs.Pages.Roster.{
  Roster, Kind, list_op, add_op, new_row, is_complete, start_loading, stop_loading, take_rows,
  fetch_rows, after_add, handle_add,
}
use onvm.Js.Value.{Value, Fields, end, is_text, peek}
use onvm.Js.Result.{Result, ok, throw}
use onvm.Js.Io.{pure, catch, ◌>>=◌, ◌>>◌}
use onvm.Js.Platform.{Platform}

-- The rows after a fetch, by the reply.
abbrev fetched : Result Value → (before : Value) → Value
fetched (ok response) before = if has_data response then peek response "data" else before
fetched (throw e) before = before

-- A fetch ends: it returns, the page is not loading, and nothing but the rows has changed.
record IsFetched (reply : Result Value) (before : Roster) (r : Result (Unit {0}) × Page Roster)
    : Type 0 where
  pub returns : r.0 ≡ ok tt
  pub view : r.1.view ≡ record before { rows = fetched reply before.rows; loading = false }

-- The program has stored what was sent.
abbrev pub is_added : Result Value → Bool
is_added (ok response) = is_text (peek response "status") "success"
is_added (throw e) = false

module _ (encode_uri : String → String) (p : Platform) (program_id : String) (kind : Kind) where
  after_list-IsFetched :
      (r : Result Value × Session) (s : Page Roster)
      → IsFetched r.0 s.view (
          attempt stop_loading
            (set start_loading >> (call (λ b. r) >>= take_rows encode_uri p program_id kind))
            s)
  after_list-IsFetched (ok response, b) s = elim (Bool-cases (has_data response)) [
    | inl e ↦ record { returns = rw e refl; view = rw e refl }
    | inr e ↦ record { returns = rw e refl; view = rw e refl }
  ]
  after_list-IsFetched (throw e, b) s = record { returns = refl; view = refl }

  fetch_rows-IsFetched :
      (s : Page Roster)
      → IsFetched
          (perform encode_uri p program_id (list_op kind) s.session).0
          s.view
          (fetch_rows encode_uri p program_id kind s)
  unfolding fetch_rows
  fetch_rows-IsFetched s =
      after_list-IsFetched (perform encode_uri p program_id (list_op kind) s.session) s

  -- The dialog and its form.
  abbrev pub dialog : Page Roster → Bool × Fields
  dialog s = (s.view.is_add_dialog_open, s.view.form_data)

  after_reply-dialog :
      (r : Result Value × Session) (s : Page Roster)
      → dialog (catch (call (λ b. r) >>= after_add encode_uri p program_id kind) (λ e. pure tt) s).1
        ≡ (if is_added r.0 then (false, end) else dialog s)
  after_reply-dialog (ok response, b) s =
      elim (Bool-cases (is_text (peek response "status") "success")) [
        | inl e ↦
            let fetched = fetch_rows-IsFetched (record s { session = b }) in
            rw (e, fetched.returns) refl
        | inr e ↦ rw e refl
      ]
  after_reply-dialog (throw e, b) s = refl

  -- The reply to an addition.
  abbrev pub add_reply : Page Roster → Result Value
  add_reply s =
      (perform encode_uri p program_id
        (add_op kind (new_row kind (p.now s.session.sent) s.view.form_data)) s.session).0

  -- A complete form is sent; the dialog is closed and its form cleared if the program stored it, and
  -- both stay if it did not.
  pub handle_add-dialog :
      (s : Page Roster)
      → is_complete kind s.view.form_data ≡ true
      → dialog (handle_add encode_uri p program_id kind s).1
        ≡ (if is_added (add_reply s) then (false, end) else dialog s)
  unfolding handle_add
  handle_add-dialog s full = rw full (
      after_reply-dialog
        (perform encode_uri p program_id
          (add_op kind (new_row kind (p.now s.session.sent) s.view.form_data)) s.session)
        s)
