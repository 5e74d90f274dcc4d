-- ===== src/Nbook/Pages/Attempt.antt =====
-- How an attempt ends: it never throws, and what it leaves follows from the reply to its request.
use onvm.Base.{◌≡◌, refl, ap, String, ◌∷◌}
use onvm.Nbook.Client.{Browser}
use onvm.Nbook.Pages.{Page, attempt, toast, failure, call, set}
use onvm.Js.Result.{Result, ok, throw}
use onvm.Js.Io.{Io, handle, ◌>>=◌, ◌>>◌}

module _ {V : Type 0} where
  handle-toast_ok :
      (r : Result (Unit {0})) (title : String) (s : Page V)
      → (handle r (λ e. toast (failure title e)) s).0 ≡ ok tt
  handle-toast_ok (ok a) title s = refl
  handle-toast_ok (throw e) title s = refl

  pub attempt_ok :
      (title : String) (done : V → V) (m : Io (Page V) (Unit {0})) (s : Page V)
      → (attempt title done m s).0 ≡ ok tt
  attempt_ok title done m s = handle-toast_ok (m s).0 title (m s).1

  -- A page after the reply to a request: the state changed by `put` with what it returned, or as
  -- it was with the error among the messages; and in both cases by `done`.
  abbrev pub settled :
      {A : Type 0} → String → (V → V) → (A → V → V) → Page V → Result A × Browser → Page V
  settled title done put s (ok a, b) = record s { browser = b; view = done (put a s.view) }
  settled title done put s (throw e, b) = record s {
    browser = b;
    view = done s.view;
    toasts = failure title e ∷ s.toasts;
  }

  -- The flag that is set at the start makes no difference, as `done` resets it.
  attempt_reply :
      {A : Type 0} (title : String) (start done : V → V) (put : A → V → V) (r : Result A × Browser)
      (s : Page V)
      → ((c : V) → done (start c) ≡ done c)
      → ((a : A) (c : V) → done (put a (start c)) ≡ done (put a c))
      → (set start >> attempt title done (call (λ b. r) >>= λ a. set (put a))) s
        ≡ (ok tt, settled title done put s r)
  attempt_reply title start done put (ok a, b) s h k =
      ap (λ v. (ok tt, record s { browser = b; view = v })) (k a s.view)
  attempt_reply title start done put (throw e, b) s h k =
      ap (λ v. (ok tt, record s { browser = b; view = v; toasts = failure title e ∷ s.toasts }))
        (h s.view)

  pub attempt-call :
      {A : Type 0} (title : String) (start done : V → V) (put : A → V → V) (q : Io Browser A)
      (s : Page V)
      → ((c : V) → done (start c) ≡ done c)
      → ((a : A) (c : V) → done (put a (start c)) ≡ done (put a c))
      → (set start >> attempt title done (call q >>= λ a. set (put a))) s
        ≡ (ok tt, settled title done put s (q s.browser))
  attempt-call title start done put q s h k = attempt_reply title start done put (q s.browser) s h k

  -- The same where the continuation `k` changes the page by `after`, and does not throw.
  abbrev pub concluded :
      {A : Type 0} → String → (V → V) → (A → Page V → Page V) → Page V → Result A × Browser → Page V
  concluded title done after s (ok a, b) = record (after a (record s { browser = b })) {
    view = done (after a (record s { browser = b })).view;
  }
  concluded title done after s (throw e, b) = record s {
    browser = b;
    view = done s.view;
    toasts = failure title e ∷ s.toasts;
  }

  concluded_reply :
      {A : Type 0} (title : String) (done : V → V) (k : A → Io (Page V) (Unit {0}))
      (after : A → Page V → Page V) (r : Result A × Browser) (s : Page V)
      → ((a : A) (t : Page V) → k a t ≡ (ok tt, after a t))
      → attempt title done (call (λ b. r) >>= k) s ≡ (ok tt, concluded title done after s r)
  concluded_reply title done k after (ok a, b) s h = rw (h a (record s { browser = b })) refl
  concluded_reply title done k after (throw e, b) s h = refl

  pub attempt-then :
      {A : Type 0} (title : String) (done : V → V) (q : Io Browser A)
      (k : A → Io (Page V) (Unit {0})) (after : A → Page V → Page V) (s : Page V)
      → ((a : A) (t : Page V) → k a t ≡ (ok tt, after a t))
      → attempt title done (call q >>= k) s ≡ (ok tt, concluded title done after s (q s.browser))
  attempt-then title done q k after s h = concluded_reply title done k after (q s.browser) s h
