-- ===== src/Nbook/Api/Guard.antt =====
-- The functions of wasm_programs/nbook/ui/lib/api.ts that need a session.
use onvm.Base.{
  ℕ, ◌≡◌, refl, ap, ◌∙◌, String, Bool, true, Bool-cases, inl, inr, none, ltb, if◌then◌else◌,
}
use onvm.Base.Texts.{present}
use onvm.Sdk.Errors.{builtin}
use onvm.Nbook.Ops.{Op}
use onvm.Nbook.Client.{Browser, perform}
use onvm.Nbook.Session.{get_session}
use onvm.Nbook.Session.Expiry.{user, stored_browser, IsReadBack, get_session-set_session}
use onvm.Nbook.Api.{get_session_token, with_session}
use onvm.Js.Value.{Value, null, truthy, or_value}
use onvm.Js.Result.{Result, throw}
use onvm.Js.Io.{fail}
use onvm.Js.Platform.{Platform}

module _ (p : Platform) (program_id : String) (op : Value → Op) where
  abbrev guarded : Value → Browser → Result Value × Browser
  guarded v =
      if truthy v then perform p program_id (op v) else fail (builtin "Error" "Not authenticated")

  guarded_live :
      (session : Value) (s : Browser)
      → truthy session ≡ true
      → guarded (or_value session null) s ≡ perform p program_id (op session) s
  guarded_live session s full =
      ap (λ (v : Value). guarded v s) (ap (λ (c : Bool). if c then session else null) full)
      ∙ ap
          (λ (c : Bool).
            (if c
                then perform p program_id (op session)
                else fail (builtin "Error" "Not authenticated"))
              s)
          full

  -- Without a stored session, nothing is sent and nothing changes.
  with_session-none :
      (s : Browser)
      → present s.stored ≡ none
      → with_session p program_id op s ≡ (throw (builtin "Error" "Not authenticated"), s)
  unfolding with_session get_session_token get_session
  with_session-none s e = elim (Bool-cases s.has_window) [
    | inl window ↦ rw (window, e) refl
    | inr server ↦ rw server refl
  ]

  -- In a browser where the JSON of the user is read back, with a session that is truthy, the operation is performed with the session that was stored, as long as
  -- the clock is before its expiry; afterwards the session is cleared and nothing is sent.
  pub with_session-set_session :
      (session : Value) (username : String) (t : ℕ) (s : Browser)
      → s.has_window ≡ true
      → IsReadBack p program_id (user p program_id session username t s)
      → truthy session ≡ true
      → with_session p program_id op (stored_browser p program_id session username t s) ≡ (
          if ltb (p.now s.sent) t
          then perform p program_id (op session) (stored_browser p program_id session username t s)
          else (throw (builtin "Error" "Not authenticated"), record s { stored = none }))
  unfolding with_session get_session_token
  with_session-set_session session username t s window r full =
      rw (get_session-set_session p program_id session username t s window r)
        (elim (Bool-cases (ltb (p.now s.sent) t)) [
          | inl live ↦
              rw live (guarded_live session (stored_browser p program_id session username t s) full)
          | inr expired ↦ rw expired refl
        ])
