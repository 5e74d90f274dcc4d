-- ===== src/Sdk/Auth/Hkdf.antt =====
-- `hkdf` of onvm-sdk/src/auth.ts against RFC 5869.
use mathlib.Core.List.{flatten, append-nil, append_assoc}
use onvm.Base.{
  ℕ, zero, suc, ◌+◌, ◌*◌, ◌/◌, ◌%◌, ◌≤◌, ◌≡◌, refl, ap, sym, ◌∙◌, Option, List, [], ◌∷◌, ◌++◌,
  length, take, length-append, length-take, arith,
}
use native.Mathlib.Nat.{add-zero, zero-add}
use onvm.Js.Platform.{Platform, Bytes}
use onvm.Sdk.Auth.{expand, hkdf, salt_or_zeros}

flatten-append {ℓ} :
    {A : Type ℓ} (xs : List (List A)) (y : List A) → flatten (xs ++ (y ∷ [])) ≡ flatten xs ++ y
unfolding flatten
flatten-append [] y = append-nil y
flatten-append (x ∷ xs) y =
    ap (λ t. x ++ t) (flatten-append xs y) ∙ sym (append_assoc x (flatten xs) y)

flatten-nil {ℓ} : {A : Type ℓ} → flatten {A = A} [] ≡ []
unfolding flatten
flatten-nil = refl

module _ (p : Platform) where
  open p use {hmac_sha256}

  -- T(i) of the RFC: T(0) is empty, and T(i) = HMAC(PRK, T(i-1) | info | i).
  abbrev block : Bytes → Bytes → ℕ → Bytes
  block prk info zero = []
  block prk info (suc i) = hmac_sha256 prk (block prk info i ++ (info ++ (suc i ∷ [])))

  -- T(1) | T(2) | ... | T(n)
  abbrev blocks : Bytes → Bytes → ℕ → Bytes
  blocks prk info zero = []
  blocks prk info (suc n) = blocks prk info n ++ block prk info (suc n)

  -- The output of the RFC for `size` octets.
  abbrev pub rfc_okm : (ikm : Bytes) (salt : Option Bytes) (info : Bytes) (size : ℕ) → Bytes
  rfc_okm ikm salt info size =
      take size (blocks (hmac_sha256 (salt_or_zeros p salt) ikm) info ((size + 31) / 32))

  expand-flatten :
      (prk info : Bytes) (rounds i : ℕ) (done : List Bytes)
      → i + rounds ≤ 255
      → flatten done ≡ blocks prk info i
      → flatten (expand p prk info rounds (suc i) (block prk info i) done)
        ≡ blocks prk info (i + rounds)
  unfolding expand
  expand-flatten prk info zero i done h e = rw (add-zero i) e
  expand-flatten prk info (suc rounds) i done h e =
      let small : suc i % 256 ≡ suc i = omega arith in
      let next : suc i + 1 ≡ suc (suc i) = omega arith in
      let last : suc i + rounds ≡ i + suc rounds = omega arith in
      rw (small, next, ← last)
        (expand-flatten prk info rounds (suc i) (done ++ (block prk info (suc i) ∷ []))
          (omega arith) (flatten-append done _ ∙ ap (λ t. t ++ block prk info (suc i)) e))

  -- `hkdf` computes the RFC's output, for every size that the RFC allows.
  pub hkdf-eq-rfc_okm :
      (ikm : Bytes) (salt : Option Bytes) (info : Bytes) (size : ℕ)
      → size ≤ 255 * 32
      → hkdf p ikm salt info size ≡ rfc_okm ikm salt info size
  unfolding hkdf
  hkdf-eq-rfc_okm ikm salt info size h =
      let n = (size + 31) / 32 in
      ap (take size) (
        expand-flatten (hmac_sha256 (salt_or_zeros p salt) ikm) info n 0 [] (omega arith)
          flatten-nil
        ∙ ap (blocks (hmac_sha256 (salt_or_zeros p salt) ikm) info) (zero-add n))

  module _ (digest_length : (k m : Bytes) → length (hmac_sha256 k m) ≡ 32) where
    length-blocks : (prk info : Bytes) (n : ℕ) → length (blocks prk info n) ≡ 32 * n
    length-blocks prk info zero = omega arith
    length-blocks prk info (suc n) =
        rw (length-append, length-blocks prk info n, digest_length) (omega arith)

    -- The output has the size that was asked for.
    pub length-hkdf :
        (ikm : Bytes) (salt : Option Bytes) (info : Bytes) (size : ℕ)
        → size ≤ 255 * 32
        → length (hkdf p ikm salt info size) ≡ size
    length-hkdf ikm salt info size h =
        rw (hkdf-eq-rfc_okm ikm salt info size h, length-take, length-blocks) (omega arith)
