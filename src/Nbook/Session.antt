-- ===== src/Nbook/Session.antt =====
-- The session in the local storage of the browser (wasm_programs/nbook/ui/lib/auth.ts).
pub mod Expiry
pub mod Keeping
use onvm.Base.{ℕ, String, Bool, true, false, Option, none, some, ltb, if◌then◌else◌, not}
use onvm.Base.Texts.{present}
use onvm.Nbook.Ops.{Op}
use onvm.Nbook.Client.{Browser, login_user, perform}
use onvm.Js.Value.{Value, undefined, null, num, bool, str, obj, end, field, truthy, or_value}
use onvm.Js.Result
use onvm.Js.Result.{Result, member}
use onvm.Js.Io.{Io, pure, lift, gets, modify, catch, ◌>>=◌, ◌>>◌}
use onvm.Js.Platform.{Platform}

-- The stored object, `User`.
abbrev pub user_value : (username : String) → (session expires_at : Value) → Value
user_value username session expires_at =
    obj
      (field "username" (str username) (field "session" session (field "expiresAt" expires_at end)))

-- `v > n`; a value that is no number, boolean or null counts as not greater (the program sends a
-- number, and the conversions of texts and arrays are left out).
abbrev later_than : Value → ℕ → Bool
later_than (num t) n = ltb n t
later_than (bool true) n = ltb n 1
later_than _ n = false

module _ (p : Platform) (program_id : String) where
  open p use {now, json_parse, json_stringify}

  pub set_session :
      (session : Value) → (username : String) → (expires_ms : Value) → Browser → Browser
  set_session session username expires_ms s =
      if s.has_window
      then record s { stored = some (json_stringify (user_value username session expires_ms)) }
      else s

  pub clear_session : Browser → Browser
  clear_session s = if s.has_window then record s { stored = none } else s

  -- A session that was read: returned if it has not expired, else cleared.
  pub check_expiry : Value → Io Browser Value
  unfolding clear_session
  check_expiry user = do
    expires_at ← lift (member user "expiresAt")
    time ← gets (λ s. now s.sent)
    if later_than expires_at time then pure user else (modify clear_session >> pure null)

  abbrev read_stored : Option String → Io Browser Value
  read_stored none = pure null
  read_stored (some text) = lift (json_parse text) >>= check_expiry

  unfoldable pub get_session : Io Browser Value
  unfolding check_expiry
  get_session s = if s.has_window then read_stored (present s.stored) s else pure null s

  -- `register`; the reply is not used.
  abbrev pub register : (username password : String) → Io Browser (Unit {0})
  register username password = perform p program_id (Op.register username password) >>= λ r. pure tt

  -- `login`: the session is stored, and the user returned.
  pub login : (username password : String) → Io Browser Value
  unfolding set_session
  login username password = do
    reply ← login_user p program_id username password
    modify (set_session reply.0 username reply.1)
    pure (user_value username reply.0 reply.1)

  -- `logout`: an error of the program is logged and forgotten.
  pub end_session : Value → Io Browser Value
  unfolding clear_session
  end_session user =
      if truthy user
      then (do
        session ← lift (member user "session")
        catch (perform p program_id (Op.logout session)) (λ e. pure undefined)
        modify clear_session
        pure undefined)
      else pure undefined

  pub logout : Io Browser Value
  unfolding get_session end_session
  logout = get_session >>= end_session

  unfoldable is_authenticated : Io Browser Bool
  unfolding get_session
  is_authenticated = get_session >>= λ user. pure (truthy user)

  -- `session?.key || null`
  abbrev pub optional_member : Value → String → Result Value
  optional_member user key =
      if truthy user
      then Result.◌>>=◌ (member user key) (λ v. Result.ok (or_value v null))
      else Result.ok null

  unfoldable get_current_username : Io Browser Value
  unfolding get_session
  get_current_username = get_session >>= λ user. lift (optional_member user "username")
