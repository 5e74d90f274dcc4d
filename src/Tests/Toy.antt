-- ===== src/Tests/Toy.antt =====
-- A small platform, on which the theorems are run.
use Prim.Native.Char.{Char, code}
use onvm.Base.{
  ℕ, zero, suc, ◌<◌, ◌≡◌, refl, ap, ◌∙◌, ◌+◌, arith, String, ◌&&◌, Option, none, some, [], ◌∷◌,
  length, ◌==◌, if◌then◌else◌,
}
use onvm.Base.Texts.{present}
use onvm.Sdk.Errors.{builtin}
use onvm.Sdk.Auth.{zeros}
use onvm.Nbook.Client.{codes}
use onvm.Js.Value.{Value}
use onvm.Js.Result.{Result, ok, throw}
use onvm.Js.Platform.{Platform, Bytes, HttpRequest, HttpResponse, Trace, IsLawful}

abbrev letter : ℕ → Char
letter n = if n == 97 then "a" else if n == 98 then "b" else "c"

-- The text of bytes: enough for the letters a, b and c.
abbrev pub letters : Bytes → String
letters [] = ""
letters (n ∷ ns) = String.◌∷◌ (letter n) (letters ns)

-- `n` times the letter a, before `s`.
abbrev tally : ℕ → String → String
tally zero s = s
tally (suc n) s = String.◌∷◌ "a" (tally n s)

-- A text for bytes of any size: each is a tally, and ends with the letter b.
abbrev pub to_text : Bytes → String
to_text [] = ""
to_text (n ∷ ns) = tally n (String.◌∷◌ "b" (to_text ns))

abbrev of_text : String → ℕ → Bytes
of_text String.[] n = []
of_text (String.◌∷◌ c s) n = if code c == 97 then of_text s (suc n) else n ∷ of_text s 0

-- A toy cipher: a byte stands before the text, and is checked.
abbrev unseal : Bytes → Option Bytes
unseal [] = none
unseal (n ∷ m) = if n == 7 then some m else none

abbrev pub toy :
    (fetch : Trace → HttpRequest → Result HttpResponse) (parse : String → Result Value)
    (stringify : Value → String)
    → Platform
toy fetch parse stringify = record {
  fetch = fetch;
  now = λ sent. 5;
  random_bytes = λ sent n. 1 ∷ 0 ∷ [];
  json_parse = parse;
  json_stringify = stringify;
  utf8_encode = codes;
  utf8_decode = letters;
  hex_encode = to_text;
  hex_decode = λ s. of_text s 0;
  base64_encode = to_text;
  base64_decode = λ s. of_text s 0;
  atob = ok;
  hmac_sha256 = λ key message. zeros 32;
  aead_open = λ key nonce ciphertext associated.
      if length key == 32 && length nonce == 24
      then ok (unseal ciphertext)
      else throw (builtin "RangeError" "size");
}

-- The encryption of this platform.
abbrev pub seal : (key nonce plaintext associated : Bytes) → Bytes
seal key nonce plaintext associated = 7 ∷ plaintext

of_text-tally :
    (n k : ℕ) (s : String) → of_text (tally n (String.◌∷◌ "b" s)) k ≡ (n + k) ∷ of_text s 0
of_text-tally zero k s = ap (λ m. m ∷ of_text s 0) (omega arith)
of_text-tally (suc n) k s = of_text-tally n (suc k) s ∙ ap (λ m. m ∷ of_text s 0) (omega arith)

pub of_text-to_text : (b : Bytes) → of_text (to_text b) 0 ≡ b
of_text-to_text [] = refl
of_text-to_text (n ∷ ns) =
    of_text-tally n 0 (to_text ns)
    ∙ (ap (λ m. m ∷ of_text (to_text ns) 0) (omega arith) ∙ ap (λ t. n ∷ t) (of_text-to_text ns))

present-tally :
    (n : ℕ) (s : String)
    → present (some (tally n (String.◌∷◌ "b" s))) ≡ some (tally n (String.◌∷◌ "b" s))
present-tally zero s = refl
present-tally (suc n) s = refl

present-to_text : (b : Bytes) → 0 < length b → present (some (to_text b)) ≡ some (to_text b)
present-to_text [] h = elim h [ ]
present-to_text (n ∷ ns) h = present-tally n (to_text ns)

toy_opens :
    (k n m a : Bytes)
    → length k ≡ 32
    → length n ≡ 24
    → (if length k == 32 && length n == 24
        then ok (unseal (seal k n m a))
        else throw (builtin "RangeError" "size"))
      ≡ ok (some m)
toy_opens k n m a h g = rw (h, g) refl

pub toy-IsLawful :
    (fetch : Trace → HttpRequest → Result HttpResponse) (parse : String → Result Value)
    (stringify : Value → String)
    → IsLawful (toy fetch parse stringify) seal
toy-IsLawful fetch parse stringify = record {
  digest_length = λ k m. refl;
  hex_decode-hex_encode = of_text-to_text;
  hex_encode_present = present-to_text;
  base64_decode-base64_encode = of_text-to_text;
  aead_open-seal = toy_opens;
}
