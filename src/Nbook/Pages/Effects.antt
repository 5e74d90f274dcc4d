-- ===== src/Nbook/Pages/Effects.antt =====
-- An effect of a component that sends a request, as the pages write it (`useEffect` with a flag
-- `cancelled` that its cleanup sets): a render with other dependencies cancels the requests that are
-- on their way, and runs the effect again.
use onvm.Base.{◌≡◌, refl, Bool, true, false, List, [], ◌∷◌, ◌⊎◌, inl, inr, if◌then◌else◌}
use mathlib.Core.Logic.{◌≢◌}

-- A run of the effect whose request has no reply yet, with what its closure holds.
pub record Run (D : Type 0) : Type 0 where
  pub cancelled : Bool
  pub deps : D

-- A component with the dependencies of its last render.
pub record Mounted (D V : Type 0) : Type 0 where
  pub view : V
  pub deps : D
  pub runs : List (Run D)

module _ {D : Type 0} where
  -- The cleanup.
  abbrev pub cancel : List (Run D) → List (Run D)
  cancel [] = []
  cancel (r ∷ rs) = record r { cancelled = true } ∷ cancel rs

  -- `Removes r rs qs`: the runs are `r` and the runs `qs`.
  pub data Removes (r : Run D) : List (Run D) → List (Run D) → Type 0 where
    first : {rs : List (Run D)} → Removes r (r ∷ rs) rs
    next : {q : Run D} {rs qs : List (Run D)} → Removes r rs qs → Removes r (q ∷ rs) (q ∷ qs)

  -- Every run is cancelled, or has the dependencies `d`.
  abbrev pub AreCurrent : D → List (Run D) → Type 0
  AreCurrent d [] = Unit
  AreCurrent d (r ∷ rs) = ((r.cancelled ≡ true) ⊎ (r.deps ≡ d)) × AreCurrent d rs

  cancel-AreCurrent : (d : D) (rs : List (Run D)) → AreCurrent d (cancel rs)
  cancel-AreCurrent d [] = tt
  cancel-AreCurrent d (r ∷ rs) = (inl refl, cancel-AreCurrent d rs)

  pub Removes-AreCurrent :
      {d : D} {r : Run D} {rs qs : List (Run D)}
      → Removes r rs qs
      → AreCurrent d rs
      → ((r.cancelled ≡ true) ⊎ (r.deps ≡ d)) × AreCurrent d qs
  Removes-AreCurrent first h = h
  Removes-AreCurrent (next m) (h, k) = ((Removes-AreCurrent m k).0, (h, (Removes-AreCurrent m k).1))

-- `deps_of` are the dependencies, `begins` what a run does at once, with whether it sends a request,
-- and `finish` what it does with the reply, by the flag.
module _ {D R V : Type 0} (deps_of : V → D) (begins : D → V → Bool × V)
    (finish : Bool → D → R → V → V) where
  abbrev pub rendered : Mounted D V → Mounted D V
  rendered m = record {
    view = (begins (deps_of m.view) m.view).1;
    deps = deps_of m.view;
    runs =
        if (begins (deps_of m.view) m.view).0
        then (record { cancelled = false; deps = deps_of m.view } ∷ cancel m.runs)
        else cancel m.runs;
  }

  pub data Step : Mounted D V → Mounted D V → Type 0 where
    -- Anything else changes the state of the component.
    update : {m : Mounted D V} (view : V) → Step m (record m { view = view })
    render : {m : Mounted D V} → deps_of m.view ≢ m.deps → Step m (rendered m)
    reply :
        {m : Mounted D V} {r : Run D} {rest : List (Run D)} (a : R)
        → Removes r m.runs rest
        → Step m (record m { view = finish r.cancelled r.deps a m.view; runs = rest })

  pub data Reach (m : Mounted D V) : Mounted D V → Type 0 where
    here : Reach m m
    later : {n k : Mounted D V} → Reach m n → Step n k → Reach m k

  render-AreCurrent :
      (b : Bool) (d : D) (rs : List (Run D))
      → AreCurrent d (if b then (record { cancelled = false; deps = d } ∷ cancel rs) else cancel rs)
  render-AreCurrent true d rs = (inr refl, cancel-AreCurrent d rs)
  render-AreCurrent false d rs = cancel-AreCurrent d rs

  Step-AreCurrent :
      {m n : Mounted D V} → Step m n → AreCurrent m.deps m.runs → AreCurrent n.deps n.runs
  Step-AreCurrent (update view) h = h
  Step-AreCurrent {m} (render e) h =
      render-AreCurrent (begins (deps_of m.view) m.view).0 (deps_of m.view) m.runs
  Step-AreCurrent (reply a q) h = (Removes-AreCurrent q h).1

  -- The runs that are not cancelled have the dependencies of the last render.
  pub Reach-AreCurrent :
      {m n : Mounted D V} → AreCurrent m.deps m.runs → Reach m n → AreCurrent n.deps n.runs
  Reach-AreCurrent h here = h
  Reach-AreCurrent h (later r st) = Step-AreCurrent st (Reach-AreCurrent h r)
