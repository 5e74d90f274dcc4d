-- ===== src/Base/Pieces.antt =====
-- All the pieces of a text between separators, and what stands before the first separator.
use Prim.Native.Char.{Char, code}
use Prim.Native.String
use Prim.Native.String.{String}
use mathlib.Core.Path.{◌≡◌, refl}
use mathlib.Core.Logic.{inl, inr}
use mathlib.Core.List.{List, [], ◌∷◌}
use mathlib.Core.Bool.{Bool, true, not, ◌&&◌, false≢true}
use onvm.Base.Tests.{Bool-cases, ◌==◌, if◌then◌else◌}
use onvm.Base.Texts.{before}
use text.Mathlib.TextLemmas.{nil-append, cons-append}

-- `t.split(d)`
abbrev extend : Char → List String → List String
extend c [] = (String.◌∷◌ c String.[]) ∷ []
extend c (p ∷ ps) = String.◌∷◌ c p ∷ ps

abbrev pub split : Char → String → List String
split d String.[] = "" ∷ []
split d (String.◌∷◌ c s) =
    let rest = split d s in if code c == code d then "" ∷ rest else extend c rest

-- The pieces of two texts that are put together: the last of the first is continued.
abbrev pub splice : List String → List String → List String
splice [] qs = qs
splice (p ∷ []) [] = p ∷ []
splice (p ∷ []) (q ∷ qs) = String.◌++◌ p q ∷ qs
splice (p ∷ p' ∷ ps) qs = p ∷ splice (p' ∷ ps) qs

extend-splice : (c : Char) (ps qs : List String) → extend c (splice ps qs) ≡ splice (extend c ps) qs
extend-splice c [] [] = refl
extend-splice c [] (q ∷ qs) = rw (cons-append, nil-append) refl
extend-splice c (p ∷ []) [] = refl
extend-splice c (p ∷ []) (q ∷ qs) = rw cons-append refl
extend-splice c (p ∷ p' ∷ ps) qs = refl

-- There is at least one piece.
split-cons : (d : Char) (s : String) → (p : String) × (ps : List String) × (split d s ≡ p ∷ ps)
split-cons d String.[] = ("", [], refl)
split-cons d (String.◌∷◌ c s) = elim (Bool-cases (code c == code d)) [
  | inl e ↦ ("", split d s, rw e refl)
  | inr e ↦ let (p, ps, h) = split-cons d s in (String.◌∷◌ c p, ps, rw (e, h) refl)
]

cons-splice :
    (d : Char) (s : String) (qs : List String)
    → "" ∷ splice (split d s) qs ≡ splice ("" ∷ split d s) qs
cons-splice d s qs = let (p, ps, h) = split-cons d s in rw h refl

pub split-append :
    (d : Char) (s t : String) → split d (String.◌++◌ s t) ≡ splice (split d s) (split d t)
split-append d String.[] t =
    let (p, ps, h) = split-cons d t in rw nil-append (rw h (rw nil-append refl))
split-append d (String.◌∷◌ c s) t = elim (Bool-cases (code c == code d)) [
  | inl e ↦ rw (cons-append, e) (rw (split-append d s t) (cons-splice d s (split d t)))
  | inr e ↦ rw (cons-append, e) (rw (split-append d s t) (extend-splice c (split d s) (split d t)))
]

-- No character is the separator.
abbrev pub lacks : Char → String → Bool
lacks d String.[] = true
lacks d (String.◌∷◌ c s) = not (code c == code d) && lacks d s

pub split-lacks : (d : Char) (s : String) → lacks d s ≡ true → split d s ≡ s ∷ []
split-lacks d String.[] h = refl
split-lacks d (String.◌∷◌ c s) h = elim (Bool-cases (code c == code d)) [
  | inl e ↦ absurd (false≢true (rw e at h))
  | inr e ↦ rw e (rw (split-lacks d s (rw e at h)) refl)
]

pub before-append :
    (d : Char) (s t : String)
    → before d (String.◌++◌ s t) ≡ (if lacks d s then String.◌++◌ s (before d t) else before d s)
before-append d String.[] t = rw (nil-append, nil-append) refl
before-append d (String.◌∷◌ c s) t = elim (Bool-cases (code c == code d)) [
  | inl e ↦ rw (cons-append, e) refl
  | inr e ↦
      rw (cons-append, e)
        (rw (before-append d s t)
          (elim (Bool-cases (lacks d s)) [ inl f ↦ rw (f, cons-append) refl | inr f ↦ rw f refl ]))
]
