-- ===== src/Base/Decimal.antt =====
-- `Number.prototype.toString` and `parseInt` on natural numbers, in decimal.
use Prim.Native.Nat.{ℕ, zero, suc, ◌+◌, ◌-◌, ◌*◌, ◌/◌, ◌%◌, ◌<◌}
use Prim.Native.Char.{Char, code}
use Prim.Native.String.{String, [], ◌∷◌}
use mathlib.Core.Path.{◌≡◌, refl, ap, subst, ◌∙◌}
use mathlib.Core.Logic.{inl, inr}
use mathlib.Core.Bool.{Bool, true, ◌&&◌}
use mathlib.Core.Option.{Option, none, some}
use native.Mathlib.Omega.{arith}
use onvm.Base.Tests.{ltb, leb, if◌then◌else◌, Bool-cases}
use onvm.Base.Texts.{Lacks}

-- The digit of a number below ten.
abbrev digit : ℕ → Char
digit zero = "0"
digit (suc zero) = "1"
digit (suc (suc zero)) = "2"
digit (suc (suc (suc zero))) = "3"
digit (suc (suc (suc (suc zero)))) = "4"
digit (suc (suc (suc (suc (suc zero))))) = "5"
digit (suc (suc (suc (suc (suc (suc zero)))))) = "6"
digit (suc (suc (suc (suc (suc (suc (suc zero))))))) = "7"
digit (suc (suc (suc (suc (suc (suc (suc (suc zero)))))))) = "8"
digit _ = "9"

-- The digits of `n` before `s`; `n + 1` rounds are enough, since each divides by ten.
emit : ℕ → ℕ → String → String
emit zero n s = s
emit (suc fuel) n s =
    let more = emit fuel (n / 10) (digit (n % 10) ∷ s) in if ltb n 10 then digit n ∷ s else more

-- `n.toString()`, and a number in a template literal.
unfoldable pub to_string : ℕ → String
unfolding emit
to_string n = emit (suc n) n ""

abbrev is_digit : Char → Bool
is_digit c = leb b'0' (code c) && leb (code c) b'9'

scan : String → ℕ → ℕ
scan [] n = n
scan (c ∷ s) n = let rest = scan s (n * 10 + (code c - b'0')) in if is_digit c then rest else n

-- `parseInt(t)` of a text with no sign, white space or prefix; `none` stands for NaN.
pub parse_int : String → Option ℕ
unfolding scan
parse_int [] = none
parse_int (c ∷ s) = if is_digit c then some (scan (c ∷ s) 0) else none

add_sub : (k d : ℕ) → k + d - k ≡ d
add_sub k d = omega arith

code-digit : (n : ℕ) → n < 10 → code (digit n) ≡ b'0' + n
code-digit zero h = refl
code-digit (suc zero) h = refl
code-digit (suc (suc zero)) h = refl
code-digit (suc (suc (suc zero))) h = refl
code-digit (suc (suc (suc (suc zero)))) h = refl
code-digit (suc (suc (suc (suc (suc zero))))) h = refl
code-digit (suc (suc (suc (suc (suc (suc zero)))))) h = refl
code-digit (suc (suc (suc (suc (suc (suc (suc zero))))))) h = refl
code-digit (suc (suc (suc (suc (suc (suc (suc (suc zero)))))))) h = refl
code-digit (suc (suc (suc (suc (suc (suc (suc (suc (suc n))))))))) h = omega arith

scan-digit : (d n : ℕ) (s : String) → d < 10 → scan (digit d ∷ s) n ≡ scan s (n * 10 + d)
unfolding scan
scan-digit d n s h =
    rw (code-digit d h) (ground (arith, ap (λ (k : ℕ). scan s (n * 10 + k)) (add_sub 48 d)))

scan-nil : (n : ℕ) → scan "" n ≡ n
unfolding scan
scan-nil n = refl

scan-emit : (fuel n : ℕ) (s : String) → n < fuel → scan (emit fuel n s) 0 ≡ scan s n
unfolding emit
scan-emit zero n s h = elim h [ ]
scan-emit (suc fuel) n s h = elim (Bool-cases (ltb n 10)) [
  | inl small ↦ rw (small, scan-digit n 0 s (ground arith)) (ap (scan s) (omega arith))
  | inr large ↦
      rw
        (
          large,
          scan-emit fuel (n / 10) (digit (n % 10) ∷ s) (ground arith),
          scan-digit (n % 10) (n / 10) s (omega arith),
        )
        (ap (scan s) (omega arith))
]

-- What `emit` writes starts with a digit.
emit-digit :
    (fuel n : ℕ) (s : String)
    → n < fuel
    → (c : Char) × (t : String) × (emit fuel n s ≡ (c ∷ t)) × (is_digit c ≡ true)
unfolding emit
emit-digit zero n s h = elim h [ ]
emit-digit (suc fuel) n s h = elim (Bool-cases (ltb n 10)) [
  | inl small ↦ (digit n, s, rw small refl, rw (code-digit n (ground arith)) (ground arith))
  | inr large ↦ rw large (emit-digit fuel (n / 10) (digit (n % 10) ∷ s) (ground arith))
]

parse_int-scan :
    (c : Char) (t : String) → is_digit c ≡ true → parse_int (c ∷ t) ≡ some (scan (c ∷ t) 0)
unfolding parse_int
parse_int-scan c t h = rw h refl

-- `parseInt(n.toString())` is `n`.
pub parse_int-to_string : (n : ℕ) → parse_int (to_string n) ≡ some n
unfolding to_string
parse_int-to_string n =
    let (c, t, e, d) = emit-digit (suc n) n "" (omega arith) in
    let value : scan (c ∷ t) 0 ≡ n =
      subst (λ u. scan u 0 ≡ n) e (scan-emit (suc n) n "" (omega arith) ∙ scan-nil n) in
    rw e (parse_int-scan c t d ∙ ap some value)

-- A number is written without any character that is no digit.
emit-Lacks : (k fuel n : ℕ) (s : String) → k < b'0' → Lacks k s → Lacks k (emit fuel n s)
unfolding emit
emit-Lacks k zero n s h l = l
emit-Lacks k (suc fuel) n s h l = elim (Bool-cases (ltb n 10)) [
  | inl small ↦ rw small (rw (code-digit n (ground arith)) (omega arith), l)
  | inr large ↦ rw large (
      emit-Lacks k fuel (n / 10) (digit (n % 10) ∷ s) h
        (rw (code-digit (n % 10) (omega arith)) (omega arith), l))
]

pub to_string-Lacks : (k n : ℕ) → k < b'0' → Lacks k (to_string n)
unfolding to_string
to_string-Lacks k n h = emit-Lacks k (suc n) n "" h tt

decimal_tests : (to_string 0 ≡ "0") × (to_string 1732640 ≡ "1732640") × (parse_int "12a" ≡ some 12)
unfolding to_string parse_int
decimal_tests = (refl, refl, refl)
