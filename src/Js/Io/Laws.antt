-- ===== src/Js/Io/Laws.antt =====
-- How an action ends: inversion of a bind and of a handler that rethrows.
use onvm.Base.{◌≡◌, refl, ◌⊎◌, inl, inr}
use onvm.Sdk.Errors.{Fault}
use onvm.Js.Result.{Result, ok, throw, rethrow}
use onvm.Js.Result
use onvm.Js.Io.{pure, lift, Io, fail, catch, handle, resume, ◌>>=◌}

module _ {S A : Type 0} where
  pub resume-eq-throw :
      {B : Type 0} (r : Result A) (f : A → Io S B) (s : S) (e : Fault)
      → (resume r f s).0 ≡ throw e
      → (r ≡ throw e) ⊎ ((a : A) × (r ≡ ok a) × ((f a s).0 ≡ throw e))
  resume-eq-throw (ok a) f s e h = inr (a, refl, h)
  resume-eq-throw (throw e') f s e h = inl (cc)

  pub >>=-eq-throw :
      {B : Type 0} (m : Io S A) (f : A → Io S B) (s : S) (e : Fault)
      → ((m >>= f) s).0 ≡ throw e
      → ((m s).0 ≡ throw e) ⊎ ((a : A) × ((m s).0 ≡ ok a) × ((f a (m s).1).0 ≡ throw e))
  >>=-eq-throw m f s e h = resume-eq-throw (m s).0 f (m s).1 e h

  handle-eq-throw :
      (r : Result A) (handler : Fault → Fault) (s : S) (e : Fault)
      → (handle r (λ e'. fail (handler e')) s).0 ≡ throw e
      → (e' : Fault) × (r ≡ throw e') × (e ≡ handler e')
  handle-eq-throw (ok a) handler s e h = cc
  handle-eq-throw (throw e') handler s e h = (e', refl, cc)

  handle-fail_state :
      (r : Result A) (handler : Fault → Fault) (s : S)
      → (handle r (λ e'. fail (handler e')) s).1 ≡ s
  handle-fail_state (ok a) handler s = refl
  handle-fail_state (throw e) handler s = refl

  pub catch-eq-throw :
      (m : Io S A) (handler : Fault → Fault) (s : S) (e : Fault)
      → (catch m (λ e'. fail (handler e')) s).0 ≡ throw e
      → (e' : Fault) × ((m s).0 ≡ throw e') × (e ≡ handler e')
  catch-eq-throw m handler s e h = handle-eq-throw (m s).0 handler (m s).1 e h

  -- A handler that rethrows does not touch the state.
  pub catch-fail_state :
      (m : Io S A) (handler : Fault → Fault) (s : S)
      → (catch m (λ e'. fail (handler e')) s).1 ≡ (m s).1
  catch-fail_state m handler s = handle-fail_state (m s).0 handler (m s).1

  handle-eq-ok :
      (r : Result A) (handler : Fault → Fault) (s : S) (a : A)
      → (handle r (λ e'. fail (handler e')) s).0 ≡ ok a
      → r ≡ ok a
  handle-eq-ok (ok a') handler s a h = h
  handle-eq-ok (throw e) handler s a h = cc

  -- What is returned was returned by the `try` block.
  pub catch-eq-ok :
      (m : Io S A) (handler : Fault → Fault) (s : S) (a : A)
      → (catch m (λ e'. fail (handler e')) s).0 ≡ ok a
      → (m s).0 ≡ ok a
  catch-eq-ok m handler s a h = handle-eq-ok (m s).0 handler (m s).1 a h

  -- A handler that rethrows maps the errors.
  pub handle-rethrow :
      (r : Result A) (handler : Fault → Fault) (s : S)
      → (handle r (λ e. fail (handler e)) s).0 ≡ rethrow handler r
  handle-rethrow (ok a) handler s = refl
  handle-rethrow (throw e) handler s = refl

  pub resume-lift :
      {B : Type 0} (r : Result A) (f : A → Result B) (s : S)
      → (resume r (λ a. lift (f a)) s).0 ≡ (Result.◌>>=◌ r f)
  resume-lift (ok a) f s = refl
  resume-lift (throw e) f s = refl

  -- A continuation that leaves the state alone.
  pub resume_state :
      {B : Type 0} (r : Result A) (f : A → Io S B) (s : S)
      → ((a : A) → (f a s).1 ≡ s)
      → (resume r f s).1 ≡ s
  resume_state (ok a) f s h = h a
  resume_state (throw e) f s h = refl

  pub resume-eq-ok :
      {B : Type 0} (r : Result A) (f : A → Io S B) (s : S) (b : B)
      → (resume r f s).0 ≡ ok b
      → (a : A) × (r ≡ ok a) × ((f a s).0 ≡ ok b)
  resume-eq-ok (ok a) f s b h = (a, refl, h)
  resume-eq-ok (throw e) f s b h = cc

  -- What holds after the continuation, for every value, holds after the bind.
  pub resume_ok :
      {B P : Type 0} (r : Result A) (f : A → Io S B) (s : S) (b : B)
      → (resume r f s).0 ≡ ok b
      → ((a : A) → r ≡ ok a → (f a s).0 ≡ ok b → P)
      → P
  resume_ok (ok a) f s b h k = k a refl h
  resume_ok (throw e) f s b h k = cc

  -- A handler that returns a value leaves no error, and does not touch the state.
  pub handle_total :
      (r : Result A) (v : Fault → A) (s : S) → (a : A) × (handle r (λ e. pure (v e)) s ≡ (ok a, s))
  handle_total (ok a) v s = (a, refl)
  handle_total (throw e) v s = (v e, refl)

  pub handle_answers :
      (r : Result A) (v : Fault → A) (s : S) → (a : A) × ((handle r (λ e. pure (v e)) s).0 ≡ ok a)
  handle_answers (ok a) v s = (a, refl)
  handle_answers (throw e) v s = (v e, refl)
