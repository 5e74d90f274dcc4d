-- ===== src/Js/Io.antt =====
-- Asynchronous actions over a state: an `await` runs the action, and a rejection propagates. What
-- was written to the state before a throw stays written.
pub mod Laws
use onvm.Base.{Bool, true, false, if◌then◌else◌}
use onvm.Sdk.Errors.{Fault}
use onvm.Js.Result.{Result, ok, throw}

abbrev pub Io : Type 0 → Type 0 → Type 0
Io S A = S → Result A × S

module _ {S : Type 0} where
  abbrev pub pure : {A : Type 0} → A → Io S A
  pure a s = (ok a, s)

  abbrev pub fail : {A : Type 0} → Fault → Io S A
  fail e s = (throw e, s)

  -- A computation that leaves the state alone.
  abbrev pub lift : {A : Type 0} → Result A → Io S A
  lift r s = (r, s)

  abbrev pub gets : {A : Type 0} → (S → A) → Io S A
  gets f s = (ok (f s), s)

  abbrev pub modify : (S → S) → Io S (Unit {0})
  modify f s = (ok tt, f s)

  -- `if (c) throw e`
  abbrev pub fail_if : Bool → Fault → Io S (Unit {0})
  fail_if c e s = (if c then throw e else ok tt, s)

  abbrev pub handle : {A : Type 0} → Result A → (Fault → Io S A) → Io S A
  handle (ok a) handler s = (ok a, s)
  handle (throw e) handler s = handler e s

  -- `try { m } catch (e) { handler(e) }`
  abbrev pub catch : {A : Type 0} → Io S A → (Fault → Io S A) → Io S A
  catch m handler s = handle (m s).0 handler (m s).1

  abbrev pub resume : {A B : Type 0} → Result A → (A → Io S B) → Io S B
  resume (ok a) f s = f a s
  resume (throw e) f s = (throw e, s)

infixl 5 ◌>>=◌ ◌>>◌
abbrev pub ◌>>=◌ : {S A B : Type 0} → Io S A → (A → Io S B) → Io S B
◌>>=◌ m f s = resume (m s).0 f (m s).1

abbrev pub ◌>>◌ : {S A B : Type 0} → Io S A → Io S B → Io S B
m >> k = m >>= λ _. k
