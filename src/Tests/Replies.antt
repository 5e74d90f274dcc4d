-- ===== src/Tests/Replies.antt =====
-- The theorems on the replies that the SDK reads, at concrete inputs.
use text.Mathlib.Text.{◌==◌}
use onvm.Base.{◌≡◌, refl, ap, sym, String, none, some, [], ◌∷◌, if◌then◌else◌, arith}
use onvm.Sdk.Auth.{
  zeros, canonical, generate_nonce, derive_response_nonce, decrypt_response,
  decrypt_response_to_buffer,
}
use onvm.Sdk.Auth.Hkdf.{hkdf-eq-rfc_okm}
use onvm.Sdk.Client.{prod}
use onvm.Sdk.Client.Reply.{Stamp, open_sealed}
use onvm.Sdk.Client.Request.{request}
use onvm.Sdk.Client.Sealing.{IsSealed, IsAuthentic, open_sealed-IsAuthentic}
use onvm.Sdk.Client.RoundTrip.{request_reads_sealed}
use onvm.Nbook.Client.{codes}
use onvm.Js.Value.{str}
use onvm.Js.Result.{ok}
use onvm.Js.Platform.{Platform, Bytes, HttpResponse, IsLawful}
use onvm.Tests.Toy.{toy, seal, toy-IsLawful, to_text}
use onvm.Tests.Requests.{keys, session, plain_response}

-- What a node seals, and its response.
abbrev plaintext : Bytes
plaintext = 1 ∷ 2 ∷ []

abbrev sealed_response : HttpResponse
sealed_response = record {
  status = 200;
  status_text = "OK";
  header = λ name.
      if name == "x-response-aead"
      then some "XChaCha20Poly1305"
      else if name == "x-response-nonce"
      then some (to_text (zeros 24))
      else none;
  body = ok (codes (to_text (7 ∷ plaintext)));
}

abbrev node : Platform
node = toy (λ sent req. ok sealed_response) (λ t. ok (str t)) (λ v. "a")

abbrev node_laws : IsLawful node seal
node_laws = toy-IsLawful (λ sent req. ok sealed_response) (λ t. ok (str t)) (λ v. "a")

node_nonce : (nonce : String) → derive_response_nonce node (zeros 32) nonce 5 ≡ zeros 24
unfolding derive_response_nonce
node_nonce nonce = hkdf-eq-rfc_okm node _ _ _ 24 (omega arith)

sealed_response-IsSealed :
    (nonce aad : String) → IsSealed node seal (zeros 32) nonce 5 aad plaintext sealed_response
sealed_response-IsSealed nonce aad = record {
  good = refl;
  named = refl;
  announced = ap (λ b. some (to_text b)) (sym (node_nonce nonce));
  sealed = refl;
}

abbrev stamp : Stamp
stamp = record { timestamp = some 5; nonce = some "ab" }

request_reads_sealed_example :
    (request node "GET" "/jobs" (str "") [] (session (some prod))).0 ≡ ok (str "cc")
unfolding generate_nonce
request_reads_sealed_example =
    request_reads_sealed node seal node_laws "GET" "/jobs" (str "") [] prod (session (some prod))
      keys "site" sealed_response plaintext (str "cc") refl refl refl (omega arith) refl refl
      (sealed_response-IsSealed _ _) refl

open_sealed-IsAuthentic_example :
    IsAuthentic node
      (zeros 32)
      "ab"
      5
      (canonical "GET" "/jobs" 5 "ab" "")
      (to_text (7 ∷ plaintext))
      (some (to_text (zeros 24)))
      (str "cc")
unfolding open_sealed decrypt_response decrypt_response_to_buffer
open_sealed-IsAuthentic_example =
    open_sealed-IsAuthentic node keys 5 "ab" "GET" "/jobs" "" (to_text (7 ∷ plaintext))
      sealed_response (str "cc") refl refl refl

abbrev plain_node : Platform
plain_node = toy (λ sent req. ok plain_response) (λ t. ok (str t)) (λ v. "a")
