-- ===== src/Nbook/Pages/Keeps.antt =====
-- What an action on a page leaves as it was: a part of the component's state.
use onvm.Base.{String, ◌≡◌, refl, ◌∙◌}
use onvm.Nbook.Pages.{Page, attempt, toast, failure}
use onvm.Js.Result.{Result, ok, throw}
use onvm.Js.Io.{Io, handle, resume, ◌>>=◌}

module _ {V X : Type 0} (part : V → X) where
  abbrev pub Keeps : {A : Type 0} → Io (Page V) A → Type 0
  Keeps m = (s : Page V) → part (m s).1.view ≡ part s.view

  resume-Keeps :
      {A B : Type 0} (r : Result A) (f : A → Io (Page V) B) (s : Page V)
      → ((a : A) → Keeps (f a))
      → part (resume r f s).1.view ≡ part s.view
  resume-Keeps (ok a) f s h = h a s
  resume-Keeps (throw e) f s h = refl

  pub >>=-Keeps :
      {A B : Type 0} (m : Io (Page V) A) (f : A → Io (Page V) B)
      → Keeps m
      → ((a : A) → Keeps (f a))
      → Keeps (m >>= f)
  >>=-Keeps m f k h s = resume-Keeps (m s).0 f (m s).1 h ∙ k s

  handle-toast-Keeps :
      (r : Result (Unit {0})) (title : String) (s : Page V)
      → part (handle r (λ e. toast (failure title e)) s).1.view ≡ part s.view
  handle-toast-Keeps (ok a) title s = refl
  handle-toast-Keeps (throw e) title s = refl

  pub attempt-Keeps :
      (title : String) (done : V → V) (m : Io (Page V) (Unit {0}))
      → ((v : V) → part (done v) ≡ part v)
      → Keeps m
      → Keeps (attempt title done m)
  attempt-Keeps title done m h k s = h _ ∙ handle-toast-Keeps (m s).0 title (m s).1 ∙ k s
