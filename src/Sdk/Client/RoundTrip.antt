-- ===== src/Sdk/Client/RoundTrip.antt =====
-- A whole request in prod mode: what the client signs and what it opens belong together.
use onvm.Base.{length, ℕ, ◌≡◌, ◌≢◌, refl, ap, ◌∙◌, String, some, arith}
use onvm.Base.Texts.{present}
use onvm.Base.Decimal.{parse_int-to_string}
use onvm.Sdk.Auth.{DerivedKeys, canonical, generate_nonce, build_auth_headers}
use onvm.Sdk.Client.{OnvmClient, NodeMode, dev, prod, Session}
use onvm.Sdk.Client.Detection.{detect_node_mode_known}
use onvm.Sdk.Client.Reply.{Stamp, sealed_by, receive}
use onvm.Sdk.Client.Request.{
  lookup, signer, sign, body_text, signed_headers, http_request, exchange, attempt, endpoint_of,
  recast, request_in, request,
}
use onvm.Sdk.Client.Sealing.{IsSealed, receive_sealed}
use onvm.Js.Value.{Value}
use onvm.Js.Result.{Result, ok}
use onvm.Js.Io.{resume, handle, fail}
use onvm.Js.Platform.{Platform, Bytes, Headers, Trace, HttpRequest, HttpResponse, IsLawful}

signer-eq-some :
    (mode : NodeMode) (c : OnvmClient) (keys : DerivedKeys) (project : String)
    → signer mode c ≡ some (keys, project)
    → (mode ≡ prod) × (c.derived_keys ≡ some keys)
signer-eq-some dev c keys project h = cc
signer-eq-some prod c keys project h = (refl, ground arith)

sealed_by-stamp :
    (mode : NodeMode) (c : OnvmClient) (keys : DerivedKeys) (t : ℕ) (nonce : String)
    → mode ≡ prod
    → c.derived_keys ≡ some keys
    → t ≢ 0
    → present (some nonce) ≡ some nonce
    → sealed_by mode c (record { timestamp = some t; nonce = some nonce })
      ≡ some (record { keys = keys; timestamp = t; nonce = nonce })
sealed_by-stamp dev c keys t nonce m k h n = cc
sealed_by-stamp prod c keys t nonce m k h n = ground arith

module _ (p : Platform) (seal : (key nonce plaintext associated : Bytes) → Bytes)
    (laws : IsLawful p seal) where
  sign_stamp :
      (sent : Trace) (mode : NodeMode) (c : OnvmClient) (method path body : String) (h : Headers)
      (keys : DerivedKeys) (project : String)
      → signer mode c ≡ some (keys, project)
      → (sign p sent mode c method path body h).1
        ≡ record { timestamp = some (p.now sent); nonce = some (generate_nonce p sent) }
  unfolding build_auth_headers lookup sign
  sign_stamp sent mode c method path body h keys project e = rw (e, sign, parse_int-to_string) refl

  exchange-ok :
      (mode : NodeMode) (c : OnvmClient) (stamp : Stamp) (method path body : String)
      (req : HttpRequest) (s : Session) (response : HttpResponse)
      → p.fetch s.sent req ≡ ok response
      → (exchange p mode c stamp method path body req s).0
        ≡ receive p mode c stamp method path body response
  unfolding exchange
  exchange-ok mode c stamp method path body req s response e = rw e refl

  module _ (method path : String) (body : Value) (custom : Headers) (mode : NodeMode) (s : Session)
      (keys : DerivedKeys) (project : String) (response : HttpResponse) (plaintext : Bytes)
      (v : Value) where
    attempt_sealed :
        length keys.response_key ≡ 32
        → signer mode s.client ≡ some (keys, project)
        → p.now s.sent ≢ 0
        → present (some (generate_nonce p s.sent)) ≡ some (generate_nonce p s.sent)
        → p.fetch s.sent (http_request p method path body custom mode s) ≡ ok response
        → IsSealed p seal keys.response_key
            (generate_nonce p s.sent)
            (p.now s.sent)
            (canonical method path (p.now s.sent) (generate_nonce p s.sent) (body_text p body))
            plaintext
            response
        → p.json_parse (p.utf8_decode plaintext) ≡ ok v
        → (attempt p method path body custom mode s).0 ≡ ok v
    attempt_sealed key_size signs running fresh sent sealed parsed =
        let (in_prod, has_keys) = signer-eq-some mode s.client keys project signs in
        let stamp = (signed_headers p method path body custom mode s).1 in
        let by : sealed_by mode s.client stamp
            ≡ some (record {
              keys = keys;
              timestamp = p.now s.sent;
              nonce = generate_nonce p s.sent;
            }) =
          ap (sealed_by mode s.client)
            (sign_stamp s.sent mode s.client method path (body_text p body) _ keys project signs)
          ∙ sealed_by-stamp mode s.client keys (p.now s.sent) (generate_nonce p s.sent) in_prod
              has_keys running fresh in
        exchange-ok mode s.client stamp method path (body_text p body)
          (http_request p method path body custom mode s) s response sent
        ∙ receive_sealed p seal laws mode s.client stamp keys (p.now s.sent)
            (generate_nonce p s.sent) method path (body_text p body) plaintext response key_size by
            sealed
        ∙ parsed

    -- On a lawful platform, in a known mode and with a response key of 32 bytes, a reply that the node
    -- seals for a signed request is read back: the
    -- method returns the JSON that was sealed. The clock is not at 0 and the nonce is not empty.
    pub request_reads_sealed :
        length keys.response_key ≡ 32
        → s.client.detected_node_mode ≡ some mode
        → signer mode s.client ≡ some (keys, project)
        → p.now s.sent ≢ 0
        → present (some (generate_nonce p s.sent)) ≡ some (generate_nonce p s.sent)
        → p.fetch s.sent (http_request p method path body custom mode s) ≡ ok response
        → IsSealed p seal keys.response_key
            (generate_nonce p s.sent)
            (p.now s.sent)
            (canonical method path (p.now s.sent) (generate_nonce p s.sent) (body_text p body))
            plaintext
            response
        → p.json_parse (p.utf8_decode plaintext) ≡ ok v
        → (request p method path body custom s).0 ≡ ok v
    unfolding request request_in
    request_reads_sealed key_size known signs running fresh sent sealed parsed =
        ap
          (λ (r : Result NodeMode × Session).
            (resume r.0 (request_in p method path body custom) r.1).0)
          (detect_node_mode_known p s mode known)
        ∙ ap
            (λ (r : Result Value).
              (handle r (λ e. fail (recast (endpoint_of s.client path) e))
                (attempt p method path body custom mode s).1).0)
            (attempt_sealed key_size signs running fresh sent sealed parsed)
