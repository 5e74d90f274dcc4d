-- ===== src/Base/Texts.antt =====
-- Texts as JavaScript uses them: template literals, truthiness, and cutting at a separator.
use Prim.Native.Char.{Char, code}
use Prim.Native.String
use Prim.Native.String.{String, [], ◌∷◌}
use mathlib.Core.Path.{◌≡◌, refl, ap, sym}
use mathlib.Core.Logic.{◌≢◌, ◌⊎◌, inl, inr}
use mathlib.Core.Option.{Option, none, some}
use mathlib.Core.List.{List}
use mathlib.Core.Bool.{Bool, ◌&&◌, ◌||◌}
use onvm.Base.Tests.{Bool-cases, ltb, leb, ◌==◌, if◌then◌else◌}
use mathlib.Core.Option
use native.Mathlib.Omega.{arith}
use Prim.Native.Nat.{ℕ, zero, suc, ◌+◌}
use text.Mathlib.TextLemmas.{nil-append, cons-append, cons-eq-cons, append-nil}

-- A template literal: its pieces in order.
abbrev pub concat : List String → String
concat List.[] = ""
concat (List.◌∷◌ s ss) = String.◌++◌ s (concat ss)

-- A text that may be undefined, null or empty is used where it is truthy.
abbrev pub present : Option String → Option String
present none = none
present (some []) = none
present (some (◌∷◌ c s)) = some (c ∷ s)

-- `t || fallback`
abbrev pub or_text : Option String → String → String
or_text o fallback = elim (present o) [ none ↦ fallback | some t ↦ t ]

-- `t.length`, in characters, and `t.slice(0, n)`, `t.slice(n)`.
abbrev pub size : String → ℕ
size [] = 0
size (c ∷ s) = suc (size s)

-- `length`: the number of UTF-16 units, two for a character above 0xffff.
abbrev pub utf16_size : String → ℕ
utf16_size [] = 0
utf16_size (c ∷ s) = (if ltb 0xffff (code c) then 2 else 1) + utf16_size s

abbrev pub front : ℕ → String → String
front zero s = []
front (suc n) [] = []
front (suc n) (c ∷ s) = c ∷ front n s

abbrev pub back : ℕ → String → String
back zero s = s
back (suc n) [] = []
back (suc n) (c ∷ s) = back n s

-- No character of the text has this code.
abbrev pub Lacks : ℕ → String → Type 0
Lacks n [] = Unit
Lacks n (c ∷ s) = (code c ≢ n) × Lacks n s

-- `t.split(d)[0]`, and the second piece if there is one.
abbrev pub before : Char → String → String
before d [] = []
before d (c ∷ s) = let rest = before d s in if code c == code d then [] else c ∷ rest

abbrev after : Char → String → Option String
after d [] = none
after d (c ∷ s) = let rest = after d s in if code c == code d then some s else rest

-- `t.split(d)[1]`
abbrev pub second_piece : Char → String → Option String
second_piece d s = Option.map (before d) (after d s)

-- A text that lacks the separator is the first piece, and the rest is what follows.
before-append : (d : Char) (s t : String) → Lacks (code d) s → before d (String.◌++◌ s (d ∷ t)) ≡ s
before-append d [] t h =
    rw nil-append
      (elim (Bool-cases (code d == code d)) [ inl e ↦ rw e refl | inr e ↦ absurd (ground arith) ])
before-append d (c ∷ s) t (p, h) = elim (Bool-cases (code c == code d)) [
  | inl e ↦ absurd (p (ground arith))
  | inr e ↦ rw (cons-append, e) (ap (λ u. c ∷ u) (before-append d s t h))
]

after-append :
    (d : Char) (s t : String) → Lacks (code d) s → after d (String.◌++◌ s (d ∷ t)) ≡ some t
after-append d [] t h =
    rw nil-append
      (elim (Bool-cases (code d == code d)) [ inl e ↦ rw e refl | inr e ↦ absurd (ground arith) ])
after-append d (c ∷ s) t (p, h) = elim (Bool-cases (code c == code d)) [
  | inl e ↦ absurd (p (ground arith))
  | inr e ↦ rw (cons-append, e) (after-append d s t h)
]

before-Lacks : (d : Char) (s : String) → Lacks (code d) s → before d s ≡ s
before-Lacks d [] h = refl
before-Lacks d (c ∷ s) (p, h) = elim (Bool-cases (code c == code d)) [
  | inl e ↦ absurd (p (ground arith))
  | inr e ↦ rw e (ap (λ u. c ∷ u) (before-Lacks d s h))
]

-- Two texts that lack the separator are read back.
pub split-concat :
    (d : Char) (s t : String)
    → Lacks (code d) s
    → Lacks (code d) t
    → (before d (concat (List.◌∷◌ s (List.◌∷◌ (d ∷ []) (List.◌∷◌ t List.[])))) ≡ s)
      × (second_piece d (concat (List.◌∷◌ s (List.◌∷◌ (d ∷ []) (List.◌∷◌ t List.[])))) ≡ some t)
split-concat d s t h k =
    rw (cons-append, nil-append, append-nil)
      (before-append d s t h, rw (after-append d s t h) (ap some (before-Lacks d t k)))

pub String-cases : (s : String) → (s ≡ "") ⊎ ((c : Char) × (t : String) × (s ≡ (c ∷ t)))
String-cases [] = inl refl
String-cases (c ∷ s) = inr (c, s, refl)

-- White space and line ends, as `trim` takes them.
abbrev pub is_space : Char → Bool
is_space c =
    let n = code c in
    leb 9 n && leb n 13
    || n == 32
    || n == 0xa0
    || n == 0x1680
    || leb 0x2000 n && leb n 0x200a
    || n == 0x2028
    || n == 0x2029
    || n == 0x202f
    || n == 0x205f
    || n == 0x3000
    || n == 0xfeff

trim_start : String → String
trim_start [] = ""
trim_start (c ∷ s) = let rest = trim_start s in if is_space c then rest else c ∷ s

abbrev cons_trimmed : Char → String → String
cons_trimmed c [] = if is_space c then "" else c ∷ ""
cons_trimmed c (d ∷ s) = c ∷ d ∷ s

trim_end : String → String
trim_end [] = ""
trim_end (c ∷ s) = cons_trimmed c (trim_end s)

-- `t.trim()`
unfoldable pub trim : String → String
unfolding trim_start trim_end
trim s = trim_end (trim_start s)

trim_tests : (trim " \ta b \n" ≡ "a b") × (trim "  " ≡ "")
unfolding trim
trim_tests = (refl, refl)

Lacks-append : (n : ℕ) (s t : String) → Lacks n s → Lacks n t → Lacks n (String.◌++◌ s t)
Lacks-append n [] t h k = rw nil-append k
Lacks-append n (c ∷ s) t (p, h) k = rw cons-append (p, Lacks-append n s t h k)

-- A text is cut in one way at the first occurrence of a character that its head lacks.
cut_unique :
    (d : Char) (a b s t : String)
    → Lacks (code d) a
    → Lacks (code d) b
    → String.◌++◌ a (d ∷ s) ≡ String.◌++◌ b (d ∷ t)
    → (a ≡ b) × (s ≡ t)
cut_unique d [] [] s t h k e =
    let e' : (d ∷ s) ≡ (d ∷ t) = rw (nil-append, nil-append) at e in (refl, (cons-eq-cons.0 e').1)
cut_unique d [] (c ∷ b) s t h k e =
    let e' : (d ∷ s) ≡ (c ∷ String.◌++◌ b (d ∷ t)) = rw (nil-append, cons-append) at e in
    absurd (k.0 (ap code (sym (cons-eq-cons.0 e').0)))
cut_unique d (c ∷ a) [] s t h k e =
    let e' : (c ∷ String.◌++◌ a (d ∷ s)) ≡ (d ∷ t) = rw (cons-append, nil-append) at e in
    absurd (h.0 (ap code (cons-eq-cons.0 e').0))
cut_unique d (c ∷ a) (c' ∷ b) s t h k e =
    let e' : (c ∷ String.◌++◌ a (d ∷ s)) ≡ (c' ∷ String.◌++◌ b (d ∷ t)) =
      rw (cons-append, cons-append) at e in
    let (same, rest) = cons-eq-cons.0 e' in
    let (front, back) = cut_unique d a b s t h.1 k.1 rest in (cc, back)

-- The same where the separator is a piece of a template literal.
pub cut_piece :
    (d : Char) (a b s t : String)
    → Lacks (code d) a
    → Lacks (code d) b
    → String.◌++◌ a (String.◌++◌ (d ∷ []) s) ≡ String.◌++◌ b (String.◌++◌ (d ∷ []) t)
    → (a ≡ b) × (s ≡ t)
cut_piece d a b s t h k e = cut_unique d a b s t h k (simp (cons-append, nil-append) at e)
