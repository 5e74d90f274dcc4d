-- ===== src/Nbook/Session/Keeping.antt =====
-- What the storage of the session promises (wasm_programs/nbook/ui/lib/auth.ts): it is a cell that holds
-- at most one login, which expires.
use onvm.Base.{
  ◌≡◌, refl, ap, ℕ, String, true, Option, none, some, List, [], ◌∷◌, ltb, if◌then◌else◌, Bool-cases,
  inl, inr,
}
use onvm.Nbook.Client.{Browser}
use onvm.Nbook.Session.{user_value, set_session, get_session, clear_session, check_expiry}
use onvm.Nbook.Session.Expiry.{IsReadBack}
use onvm.Js.Value.{Value, null, num}
use onvm.Js.Result.{Result, ok}
use onvm.Js.Platform.{Platform, Trace, HttpRequest}

pub record Login : Type 0 where
  pub session : Value
  pub username : String
  pub expiry : ℕ

-- The user that is stored for a login.
abbrev pub stored_user : Login → Value
stored_user l = user_value l.username l.session (num l.expiry)

-- What happens to a page: a login is stored, the session is cleared or read, or a request is sent.
pub data Action : Type 0 where
  store : Login → Action
  discard look : Action
  send : HttpRequest → Action

-- The cell, with the requests that were sent, on which the clock may depend.
pub record Cell : Type 0 where
  pub content : Option Login
  pub sent : Trace

-- What a look finds: a login that has expired is gone.
abbrev current : (time : ℕ) → Option Login → Option Login
current time none = none
current time (some l) = if ltb time l.expiry then some l else none

abbrev shown : Option Login → Value
shown none = null
shown (some l) = stored_user l

module _ (p : Platform) (program_id : String) where
  -- The answers of a cell to the looks among the actions.
  abbrev pub spec : List Action → Cell → List (Result Value)
  spec [] c = []
  spec (store l ∷ more) c = spec more (record c { content = some l })
  spec (discard ∷ more) c = spec more (record c { content = none })
  spec (send req ∷ more) c = spec more (record c { sent = req ∷ c.sent })
  spec (look ∷ more) c =
      let found = current (p.now c.sent) c.content in
      ok (shown found) ∷ spec more (record c { content = found })

  -- The answers of the code.
  abbrev pub run : List Action → Browser → List (Result Value)
  run [] b = []
  run (store l ∷ more) b = run more (set_session p program_id l.session l.username (num l.expiry) b)
  run (discard ∷ more) b = run more (clear_session p program_id b)
  run (send req ∷ more) b = run more (record b { sent = req ∷ b.sent })
  run (look ∷ more) b = let (answer, after) = get_session p program_id b in answer ∷ run more after

  -- The JSON of every login that is stored is read back.
  abbrev pub AreReadBack : List Action → Type 0
  AreReadBack [] = Unit
  AreReadBack (store l ∷ more) = IsReadBack p program_id (stored_user l) × AreReadBack more
  AreReadBack (discard ∷ more) = AreReadBack more
  AreReadBack (look ∷ more) = AreReadBack more
  AreReadBack (send req ∷ more) = AreReadBack more

  abbrev IsReadable : Option Login → Type 0
  IsReadable none = Unit
  IsReadable (some l) = IsReadBack p program_id (stored_user l)

  abbrev written : Option Login → Option String
  written none = none
  written (some l) = some (p.json_stringify (stored_user l))

  -- The browser that holds what the cell holds.
  abbrev pub browser_of : Cell → Browser
  browser_of c = record { has_window = true; stored = written c.content; sent = c.sent }

  look-current :
      (content : Option Login) (sent : Trace)
      → IsReadable content
      → (get_session p program_id (browser_of (record { content = content; sent = sent })) ≡ (
        ok (shown (current (p.now sent) content)),
        browser_of (record { content = current (p.now sent) content; sent = sent }),
      ))
        × IsReadable (current (p.now sent) content)
  unfolding get_session check_expiry clear_session
  look-current none sent h = (refl, tt)
  look-current (some l) sent r = elim (Bool-cases (ltb (p.now sent) l.expiry)) [
    | inl live ↦ rw (r.full, r.parsed, live) (refl, r)
    | inr expired ↦ rw (r.full, r.parsed, expired) (refl, tt)
  ]

  run-eq-spec_of :
      (more : List Action) (c : Cell)
      → IsReadable c.content
      → AreReadBack more
      → run more (browser_of c) ≡ spec more c
  unfolding set_session clear_session
  run-eq-spec_of [] c h hs = refl
  run-eq-spec_of (store l ∷ more) c h (r, hs) =
      run-eq-spec_of more (record c { content = some l }) r hs
  run-eq-spec_of (discard ∷ more) c h hs = run-eq-spec_of more (record c { content = none }) tt hs
  run-eq-spec_of (send req ∷ more) c h hs =
      run-eq-spec_of more (record c { sent = req ∷ c.sent }) h hs
  run-eq-spec_of (look ∷ more) c h hs =
      let (e, h') = look-current c.content c.sent h in
      rw e (
        ap (λ answers. ok (shown (current (p.now c.sent) c.content)) ∷ answers)
          (run-eq-spec_of more (record c { content = current (p.now c.sent) c.content }) h' hs))

  -- Whatever is stored, cleared, read and sent in a browser with nothing stored at first: if the JSON of each
  -- stored login is read back, every look is answered as by a cell that holds one login until its expiry.
  pub run-eq-spec :
      (more : List Action) (sent : Trace)
      → AreReadBack more
      → run more (record { has_window = true; stored = none; sent = sent })
        ≡ spec more (record { content = none; sent = sent })
  run-eq-spec more sent hs = run-eq-spec_of more (record { content = none; sent = sent }) tt hs
