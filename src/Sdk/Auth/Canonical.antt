-- ===== src/Sdk/Auth/Canonical.antt =====
-- The signed text of onvm-sdk/src/auth.ts determines the request that it stands for.
use text.Mathlib.TextLemmas.{append-nil}
use onvm.Base.{ℕ, ◌≡◌, String, ◌∙◌, sym, ap, arith, some}
use onvm.Base.Texts.{Lacks, cut_piece}
use onvm.Base.Decimal.{to_string, parse_int, parse_int-to_string, to_string-Lacks}
use onvm.Sdk.Auth.{canonical}

some_eq : {a b : ℕ} → some a ≡ some b → a ≡ b
some_eq h = cc

to_string_injective : (m n : ℕ) → to_string m ≡ to_string n → m ≡ n
to_string_injective m n e =
    some_eq (sym (parse_int-to_string m) ∙ ap parse_int e ∙ parse_int-to_string n)

-- Two requests with the same signed text are the same request: same method, path, time, nonce and
-- body. It holds where no method holds a space, and no path and no nonce a line break.
pub canonical_injective :
    (m m' path path' : String) (t t' : ℕ) (nonce nonce' body body' : String)
    → Lacks b' ' m
    → Lacks b' ' m'
    → Lacks 10 path
    → Lacks 10 path'
    → Lacks 10 nonce
    → Lacks 10 nonce'
    → canonical m path t nonce body ≡ canonical m' path' t' nonce' body'
    → (m ≡ m') × (path ≡ path') × (t ≡ t') × (nonce ≡ nonce') × (body ≡ body')
unfolding canonical
canonical_injective m m' path path' t t' nonce nonce' body body' h h' k k' l l' e =
    let (same_m, e₁) = cut_piece " " m m' _ _ h h' e in
    let (same_path, e₂) = cut_piece "\n" path path' _ _ k k' e₁ in
    let (same_time, e₃) =
      cut_piece "\n" (to_string t) (to_string t') _ _ (to_string-Lacks 10 t (omega arith))
        (to_string-Lacks 10 t' (omega arith)) e₂ in
    let (same_nonce, e₄) = cut_piece "\n" nonce nonce' _ _ l l' e₃ in
    (same_m, same_path, to_string_injective t t' same_time, same_nonce, simp append-nil at e₄)
