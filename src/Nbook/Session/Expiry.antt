-- ===== src/Nbook/Session/Expiry.antt =====
-- The stored session of the site: what is read back, and what a login and a logout leave behind.
use onvm.Base.{
  ℕ, ◌≡◌, refl, ◌∙◌, String, true, Bool-cases, inl, inr, none, some, ltb, if◌then◌else◌, arith,
}
use onvm.Base.Texts.{present}
use onvm.Nbook.Ops.{Op}
use onvm.Nbook.Client.{Browser, login_user, perform}
use onvm.Nbook.Client.Sending.{perform_window, login_user_stored, login_user_window}
use onvm.Nbook.Session.{
  user_value, set_session, clear_session, check_expiry, get_session, login, end_session, logout,
}
use onvm.Js.Value.{Value, undefined, null, num}
use onvm.Js.Result.{Result, ok, throw}
use onvm.Js.Io.{resume, modify, pure, ◌>>◌}
use onvm.Js.Io.Laws.{handle_total}
use onvm.Js.Platform.{Platform}

module _ (p : Platform) (program_id : String) where
  -- The stored text is not empty, and is read back as the user that was written.
  pub record IsReadBack (user : Value) : Type 0 where
    pub full : present (some (p.json_stringify user)) ≡ some (p.json_stringify user)
    pub parsed : p.json_parse (p.json_stringify user) ≡ ok user

  end_session_live :
      (username : String) (session expires_at : Value) (s : Browser)
      → s.has_window ≡ true
      → ((end_session p program_id (user_value username session expires_at) s).0 ≡ ok undefined)
        × ((end_session p program_id (user_value username session expires_at) s).1.stored ≡ none)
  unfolding end_session clear_session
  end_session_live username session expires_at s window =
      let kept : (perform p program_id (Op.logout session) s).1.has_window ≡ true =
        perform_window p program_id (Op.logout session) s ∙ window in
      let after = perform p program_id (Op.logout session) s in
      let (v, e) = handle_total after.0 (λ _. undefined) after.1 in rw (e, kept) (refl, refl)

  module _ (session : Value) (username : String) (t : ℕ) (s : Browser) where
    abbrev pub user : Value
    user = user_value username session (num t)

    abbrev pub stored_browser : Browser
    stored_browser = set_session p program_id session username (num t) s

    set_session_stored :
        s.has_window ≡ true → stored_browser ≡ record s { stored = some (p.json_stringify user) }
    unfolding set_session
    set_session_stored window = rw window refl

    -- In a browser where the JSON of the user is read back, a session that was stored is returned as long as the clock is before its expiry,
    -- and is cleared at the first look afterwards.
    pub get_session-set_session :
        s.has_window ≡ true
        → IsReadBack user
        → get_session p program_id stored_browser ≡ (
            if ltb (p.now s.sent) t
            then (ok user, stored_browser)
            else (ok null, record s { stored = none }))
    unfolding get_session check_expiry clear_session
    get_session-set_session window r =
        rw (set_session_stored window) (rw (window, r.full, r.parsed) (ground arith))

    -- A logout in a browser where the JSON of the user is read back succeeds and leaves nothing stored, whatever the program or the network
    -- answer, and also if the session has expired.
    pub logout-set_session :
        s.has_window ≡ true
        → IsReadBack user
        → ((logout p program_id stored_browser).0 ≡ ok undefined)
          × ((logout p program_id stored_browser).1.stored ≡ none)
    unfolding logout
    logout-set_session window r =
        rw (get_session-set_session window r) (elim (Bool-cases (ltb (p.now s.sent) t)) [
          | inl live ↦ rw live (
              end_session_live username session (num t) stored_browser
                (rw (set_session_stored window) window))
          | inr expired ↦ rw expired (refl, refl)
        ])

  -- How a login ends: the session that the program opened is stored for the user that is returned,
  -- or nothing that was stored is changed.
  abbrev pub IsLogin : (username : String) (s s' : Browser) → Result Value → Type 0
  IsLogin username s s' (throw e) = s'.stored ≡ s.stored
  IsLogin username s s' (ok user) =
      (session : Value) × (expires_ms : Value) × (user ≡ user_value username session expires_ms)
      × (s'.stored ≡ (if s.has_window then some (p.json_stringify user) else s.stored))

  resume-IsLogin :
      (username : String) (s s' : Browser) (r : Result (Value × Value))
      → s'.stored ≡ s.stored
      → s'.has_window ≡ s.has_window
      → IsLogin username s
          (resume r
            (λ reply.
              modify (set_session p program_id reply.0 username reply.1)
              >> pure (user_value username reply.0 reply.1))
            s').1
          (resume r
            (λ reply.
              modify (set_session p program_id reply.0 username reply.1)
              >> pure (user_value username reply.0 reply.1))
            s').0
  unfolding set_session
  resume-IsLogin username s s' (throw e) same window = same
  resume-IsLogin username s s' (ok (session, expires_ms)) same window =
      (session, expires_ms, refl, rw (window) (ground arith))

  -- A login that returns a user has stored, in a browser, the JSON of this user, with the session
  -- and the expiry that the program has sent; one that throws leaves what was stored as it was.
  pub login-IsLogin :
      (username password : String) (s : Browser)
      → IsLogin username s
          (login p program_id username password s).1
          (login p program_id username password s).0
  unfolding login
  login-IsLogin username password s =
      resume-IsLogin username s (login_user p program_id username password s).1
        (login_user p program_id username password s).0
        (login_user_stored p program_id username password s)
        (login_user_window p program_id username password s)
