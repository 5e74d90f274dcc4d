-- ===== src/Programs/Pages/Roster/Searching.antt =====
-- What the search box of a list shows.
use Prim.Native.String
use Prim.Native.Char.{code}
use text.Mathlib.TextEquality.{Char-path}
use text.Mathlib.TextLemmas.{nil-append, cons-append}
use onvm.Base.{
  ◌≡◌, refl, sym, ◌∙◌, ◌↔◌, ◌==◌, String, Bool, true, false, ◌||◌, Bool-cases, inl, inr, ◌⊎◌, arith,
}
use onvm.Programs.Pages.Roster.{Kind, searched, starts, text_includes, matches, filtered}
use onvm.Js.Value.{Value, Items, nil, cons, peek, show_value}

-- The text `q` stands somewhere in `t`.
abbrev Occurs : (q t : String) → Type 0
Occurs q t = (a : String) × (b : String) × (t ≡ String.◌++◌ a (String.◌++◌ q b))

starts-append : (t q : String) → starts t q ≡ true → (b : String) × (t ≡ String.◌++◌ q b)
starts-append t String.[] h = (t, sym (nil-append t))
starts-append String.[] (String.◌∷◌ d q) h = cc
starts-append (String.◌∷◌ c t) (String.◌∷◌ d q) h = elim (Bool-cases (code c == code d)) [
  | inl e ↦
      let (b, same) = starts-append t q (rw e at h) in
      let first : c ≡ d = Char-path c d (ground arith) in
      (b, rw (first, same) (sym (cons-append d q b)))
  | inr e ↦ let no_start : false ≡ true = rw e at h in cc
]

append-starts : (q b : String) → starts (String.◌++◌ q b) q ≡ true
append-starts String.[] b = refl
append-starts (String.◌∷◌ d q) b = rw cons-append (elim (Bool-cases (code d == code d)) [
  | inl e ↦ rw e (append-starts q b)
  | inr e ↦ absurd (ground arith)
])

includes-Occurs : (t q : String) → text_includes t q ≡ true → Occurs q t
includes-Occurs String.[] q h =
    let (b, same) = starts-append String.[] q h in (String.[], b, rw nil-append same)
includes-Occurs (String.◌∷◌ c t) q h = elim (Bool-cases (starts (String.◌∷◌ c t) q)) [
  | inl e ↦ let (b, same) = starts-append (String.◌∷◌ c t) q e in (String.[], b, rw nil-append same)
  | inr e ↦
      let (a, b, same) = includes-Occurs t q (rw e at h) in
      (String.◌∷◌ c a, b, rw same (sym (cons-append c a (String.◌++◌ q b))))
]

starts-includes : (t q : String) → starts t q ≡ true → text_includes t q ≡ true
starts-includes String.[] q h = h
starts-includes (String.◌∷◌ c t) q h = rw h refl

or-true : (b : Bool) → (b || true) ≡ true
or-true true = refl
or-true false = refl

occurs-includes : (a q b : String) → text_includes (String.◌++◌ a (String.◌++◌ q b)) q ≡ true
occurs-includes String.[] q b =
    rw nil-append (starts-includes (String.◌++◌ q b) q (append-starts q b))
occurs-includes (String.◌∷◌ c a) q b =
    rw (cons-append c a (String.◌++◌ q b), occurs-includes a q b)
      (or-true (starts (String.◌∷◌ c (String.◌++◌ a (String.◌++◌ q b))) q))

-- `t.includes(q)` is true just where `q` occurs in `t`.
text_includes-Occurs : (t q : String) → (text_includes t q ≡ true) ↔ Occurs q t
text_includes-Occurs t q = (includes-Occurs t q, λ (a, b, same). rw same (occurs-includes a q b))

module _ (lower : String → String) (kind : Kind) (query : String) where
  -- The row has the query in one of its two fields, without regard to case.
  abbrev HasQuery : Value → Type 0
  HasQuery row =
      Occurs (lower query) (lower (show_value (peek row (searched kind).0)))
      ⊎ Occurs (lower query) (lower (show_value (peek row (searched kind).1)))

  matches-HasQuery : (row : Value) → matches lower kind query row ≡ true → HasQuery row
  matches-HasQuery row h =
      elim (Bool-cases
        (text_includes (lower (show_value (peek row (searched kind).0))) (lower query))) [
          | inl e ↦ inl (includes-Occurs _ (lower query) e)
          | inr e ↦ inr (includes-Occurs _ (lower query) (rw e at h))
        ]

  HasQuery-matches : (row : Value) → HasQuery row → matches lower kind query row ≡ true
  HasQuery-matches row (inl o) = rw ((text_includes-Occurs _ (lower query)).1 o) refl
  HasQuery-matches row (inr o) =
      rw ((text_includes-Occurs _ (lower query)).1 o) (or-true (text_includes _ (lower query)))

  -- The rows `shown` are those of `rows` that have the query, in their order.
  pub data IsSelection : (rows shown : Items) → Type 0 where
    no_rows : IsSelection Items.nil Items.nil
    keep :
        {row : Value} {rows shown : Items}
        → HasQuery row
        → IsSelection rows shown
        → IsSelection (cons row rows) (cons row shown)
    skip :
        {row : Value} {rows shown : Items}
        → ¬ HasQuery row
        → IsSelection rows shown
        → IsSelection (cons row rows) shown

  -- The page shows the rows that have the query in one of the two fields, and no others.
  filtered-IsSelection : (rows : Items) → IsSelection rows (filtered lower kind query rows)
  unfolding filtered
  filtered-IsSelection nil = IsSelection.no_rows
  filtered-IsSelection (cons row rows) = elim (Bool-cases (matches lower kind query row)) [
    | inl e ↦ rw e (IsSelection.keep (matches-HasQuery row e) (filtered-IsSelection rows))
    | inr e ↦ rw e (
        IsSelection.skip (λ h. let same : true ≡ false = sym (HasQuery-matches row h) ∙ e in cc)
          (filtered-IsSelection rows))
  ]
