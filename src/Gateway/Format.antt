-- ===== src/Gateway/Format.antt =====
-- The texts of the blob explorer (src/blob_gateway/ui/src/lib/format.ts).
use onvm.Base.{
  ℕ, ◌≡◌, refl, ◌≤◌, ◌<◌, ◌+◌, ◌*◌, ◌/◌, ◌%◌, zero, suc, String, Bool-cases, inl, inr, ◌⊎◌, [], ◌∷◌,
  ltb, leb, sym, ap, ◌∙◌, if◌then◌else◌, arith,
}
use Prim.Native.String.{◌++◌}
use text.Mathlib.TextLemmas.{nil-append, cons-append}
use onvm.Base.Texts.{concat, size, front}
use onvm.Base.Decimal.{to_string}

-- The nearest hundredths of `n / unit`, the larger ones in the middle. The units are powers of two,
-- so the division of the source is exact for every size below 2 ^ 53.
abbrev hundredths : (n unit : ℕ) → ℕ
hundredths n unit = (200 * n + unit) / (2 * unit)

-- A number of hundredths with its two decimals.
abbrev fixed : ℕ → String
fixed q = concat (to_string (q / 100) ∷ "." ∷ to_string (q % 100 / 10) ∷ to_string (q % 10) ∷ [])

-- `(n / unit).toFixed(2) + name`
abbrev in_unit : (n unit : ℕ) → String → String
in_unit n unit name = concat (fixed (hundredths n unit) ∷ name ∷ [])

pub format_size : ℕ → String
format_size bytes =
    if ltb bytes 1024
    then concat (to_string bytes ∷ " B" ∷ [])
    else if ltb bytes 1048576
    then in_unit bytes 1024 " KB"
    else if ltb bytes 1073741824
    then in_unit bytes 1048576 " MB"
    else in_unit bytes 1073741824 " GB"

-- The text is the number of units in `n` to two decimals, rounded, and the unit's name.
abbrev IsRounded : (n unit : ℕ) → (name text : String) → Type 0
IsRounded n unit name text =
    (q : ℕ) × (text ≡ concat (fixed q ∷ name ∷ []))
    × (2 * unit * q ≤ 200 * n + unit)
    × (200 * n + unit < 2 * unit * q + 2 * unit)

-- The text of a size, by the range that it lies in.
abbrev pub IsSize : ℕ → String → Type 0
IsSize n text =
    ((n < 1024) × (text ≡ concat (to_string n ∷ " B" ∷ [])))
    ⊎ ((1024 ≤ n) × (n < 1048576) × IsRounded n 1024 " KB" text)
    ⊎ ((1048576 ≤ n) × (n < 1073741824) × IsRounded n 1048576 " MB" text)
    ⊎ ((1073741824 ≤ n) × IsRounded n 1073741824 " GB" text)

-- A size is shown in the largest unit that it reaches, up to GB, and what is shown is the nearest
-- number of hundredths of that unit.
pub format_size-IsSize : (n : ℕ) → IsSize n (format_size n)
unfolding format_size
format_size-IsSize n = elim (Bool-cases (ltb n 1024)) [
  | inl small ↦ inl (ground arith, rw small refl)
  | inr k ↦ elim (Bool-cases (ltb n 1048576)) [
    | inl kilo ↦ inr (
        inl (
          ground arith,
          ground arith,
          (hundredths n 1024, rw (k, kilo) refl, omega arith, omega arith),
        ))
    | inr m ↦ elim (Bool-cases (ltb n 1073741824)) [
      | inl mega ↦ inr (
          inr (
            inl (
              ground arith,
              ground arith,
              (hundredths n 1048576, rw (k, m, mega) refl, omega arith, omega arith),
            )))
      | inr giga ↦ inr (
          inr (
            inr (
              ground arith,
              (hundredths n 1073741824, rw (k, m, giga) refl, omega arith, omega arith),
            )))
    ]
  ]
]

-- The length of an id is taken in characters, which for ids, in ASCII, is that of the source.
truncate_id : (id : String) (length : ℕ) → String
truncate_id id length = if leb (size id) length then id else ◌++◌ (front length id) "..."

-- What is left of a text after its first characters.
abbrev IsFront : (n : ℕ) → (whole part : String) → Type 0
IsFront n whole part = (rest : String) × (whole ≡ ◌++◌ part rest) × (size part ≡ n)

front-IsFront : (n : ℕ) (s : String) → n ≤ size s → IsFront n s (front n s)
front-IsFront zero s h = (s, sym (nil-append s), refl)
front-IsFront (suc n) String.[] h = elim h [ ]
front-IsFront (suc n) (String.◌∷◌ c s) h =
    let (rest, same, long) = front-IsFront n s (omega arith) in
    (rest, ap (λ t. String.◌∷◌ c t) same ∙ sym (cons-append c (front n s) rest), ap suc long)

-- A text for an id: the id if it is short enough, else a front of it and three dots.
abbrev IsShown : (id : String) (n : ℕ) → String → Type 0
IsShown id n text =
    ((size id ≤ n) × (text ≡ id))
    ⊎ ((n < size id) × (part : String) × IsFront n id part × (text ≡ part ++ "..."))

-- An id that is no longer than the length that is asked for is shown whole, and any other by as many
-- of its first characters and three dots.
truncate_id-IsShown : (id : String) (n : ℕ) → IsShown id n (truncate_id id n)
unfolding truncate_id
truncate_id-IsShown id n = elim (Bool-cases (leb (size id) n)) [
  | inl short ↦ inl (ground arith, rw short refl)
  | inr long ↦ inr (ground arith, front n id, front-IsFront n id (ground arith), rw long refl)
]
