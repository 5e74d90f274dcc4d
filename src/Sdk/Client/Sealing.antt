-- ===== src/Sdk/Client/Sealing.antt =====
-- What the client accepts as the node's reply, and that it reads what the node has sealed.
use onvm.Base.{
  ℕ, ◌≡◌, ◌≢◌, refl, ◌∙◌, sym, String, Option, none, some, true, false, arith, ◌<◌, ◌||◌, ◌&&◌, leb,
  ltb, length, ◌==◌ as nat_eq,
}
use onvm.Sdk.Errors.{status_code_of, is_auth_error, is_rate_limit_error, is_network_error}
use onvm.Sdk.Auth.{
  DerivedKeys, canonical, response_nonce, derive_response_nonce, decrypt_response,
  decrypt_response_to_buffer,
}
use onvm.Sdk.Auth.Keys.{length-derive_response_nonce}
use onvm.Sdk.Auth.Decryption.{in_header, decrypt-seal, IsOpened, decrypt-IsOpened}
use onvm.Sdk.Client.{OnvmClient, NodeMode, dev, prod}
use onvm.Sdk.Client.Reply.{
  Stamp, sealed_by, is_present, refusal, open_reply, open_sealed, looks_base64, parse_or_empty,
  receive,
}
use onvm.Js.Value.{Value}
use onvm.Js.Result.{ok_injective, Result, ok, throw, ◌>>=◌}
use onvm.Js.Platform.{Platform, Bytes, HttpResponse, is_ok, text_of, IsLawful}

-- A response that the node has sealed (src/rpc/auth.rs, verify_signed_request).
pub record IsSealed (p : Platform) (seal : (key nonce plaintext associated : Bytes) → Bytes)
    (key : Bytes) (nonce : String) (t : ℕ) (aad : String) (plaintext : Bytes)
    (response : HttpResponse) : Type 0 where
  pub good : is_ok response ≡ true
  pub named : response.header "x-response-aead" ≡ some "XChaCha20Poly1305"
  pub announced :
      response.header "x-response-nonce" ≡ some (p.hex_encode (derive_response_nonce p key nonce t))
  pub sealed :
      text_of p response
      ≡ ok (
          p.base64_encode
            (seal key (derive_response_nonce p key nonce t) plaintext (p.utf8_encode aad)))

module _ (p : Platform) (seal : (key nonce plaintext associated : Bytes) → Bytes)
    (laws : IsLawful p seal) where
  nonce_size :
      (key : Bytes) (nonce : String) (t : ℕ) → 0 < length (derive_response_nonce p key nonce t)
  nonce_size key nonce t =
      let size = length-derive_response_nonce p laws.digest_length key nonce t in omega arith

  announced_is_present :
      (key : Bytes) (nonce : String) (t : ℕ)
      → is_present (some (p.hex_encode (derive_response_nonce p key nonce t))) ≡ true
  announced_is_present key nonce t =
      rw
        (
          laws.hex_encode_present (derive_response_nonce p key nonce t) (nonce_size key nonce t),
          is_present,
        )
        refl

  pub decrypt_response-seal :
      (key : Bytes) (nonce : String) (t : ℕ) (aad : String) (plaintext : Bytes)
      → length key ≡ 32
      → decrypt_response p
          (p.base64_encode
            (seal key (derive_response_nonce p key nonce t) plaintext (p.utf8_encode aad)))
          key
          nonce
          t
          aad
          (some (p.hex_encode (derive_response_nonce p key nonce t)))
        ≡ ok (p.utf8_decode plaintext)
  unfolding decrypt_response
  decrypt_response-seal key nonce t aad plaintext key_size =
      rw (decrypt-seal p seal laws key nonce t aad _ plaintext key_size in_header) refl

  open_sealed-IsSealed :
      (keys : DerivedKeys) (t : ℕ) (nonce method path body text : String) (plaintext : Bytes)
      (response : HttpResponse)
      → length keys.response_key ≡ 32
      → text_of p response ≡ ok text
      → IsSealed p seal keys.response_key nonce t
          (canonical method path t nonce body)
          plaintext
          response
      → open_sealed p keys t nonce method path body response text
        ≡ p.json_parse (p.utf8_decode plaintext)
  unfolding open_sealed
  open_sealed-IsSealed keys t nonce method path body text plaintext response key_size read r =
      let same = ok_injective (sym read ∙ r.sealed) in
      rw
        (
          same,
          r.named,
          r.announced,
          announced_is_present keys.response_key nonce t,
          decrypt_response-seal keys.response_key nonce t (canonical method path t nonce body)
              plaintext key_size,
        )
        refl

  -- On a lawful platform, the reply to a signed request that the node has sealed is the JSON that it has sealed.
  pub receive_sealed :
      (mode : NodeMode) (c : OnvmClient) (stamp : Stamp) (keys : DerivedKeys) (t : ℕ)
      (nonce method path body : String) (plaintext : Bytes) (response : HttpResponse)
      → length keys.response_key ≡ 32
      → sealed_by mode c stamp ≡ some (record { keys = keys; timestamp = t; nonce = nonce })
      → IsSealed p seal keys.response_key nonce t
          (canonical method path t nonce body)
          plaintext
          response
      → receive p mode c stamp method path body response ≡ p.json_parse (p.utf8_decode plaintext)
  unfolding receive open_reply
  receive_sealed mode c stamp keys t nonce method path body plaintext response key_size by r =
      rw (r.sealed, r.good, by, receive, open_reply)
        (open_sealed-IsSealed keys t nonce method path body _ plaintext response key_size r.sealed
          r)

-- What was opened under the key, with this text as associated data, is the JSON of `v`.
pub record IsAuthentic (p : Platform) (key : Bytes) (nonce : String) (t : ℕ) (aad text : String)
    (hex : Option String) (v : Value) : Type 0 where
  pub plaintext : Bytes
  pub opened :
      p.aead_open key (response_nonce p key nonce t hex) (p.base64_decode text) (p.utf8_encode aad)
      ≡ ok (some plaintext)
  pub parsed : p.json_parse (p.utf8_decode plaintext) ≡ ok v

module _ (p : Platform) where
  parse_or_empty_full : (text : String) → text ≢ "" → parse_or_empty p text ≡ p.json_parse text
  parse_or_empty_full String.[] h = absurd (h refl)
  parse_or_empty_full (String.◌∷◌ c s) h = refl

  opened-IsAuthentic :
      (key : Bytes) (nonce : String) (t : ℕ) (aad text : String) (hex : Option String) (v : Value)
      (r : Result Bytes)
      → IsOpened p text key nonce t aad hex r
      → ((r >>= (λ b. ok (p.utf8_decode b))) >>= p.json_parse) ≡ ok v
      → IsAuthentic p key nonce t aad text hex v
  opened-IsAuthentic key nonce t aad text hex v (ok b) o h = record {
    plaintext = b;
    opened = o.1;
    parsed = h;
  }
  opened-IsAuthentic key nonce t aad text hex v (throw e) o h = cc

  decrypted-IsAuthentic :
      (key : Bytes) (nonce : String) (t : ℕ) (aad text : String) (hex : Option String) (v : Value)
      → (decrypt_response p text key nonce t aad hex >>= p.json_parse) ≡ ok v
      → IsAuthentic p key nonce t aad text hex v
  unfolding decrypt_response
  decrypted-IsAuthentic key nonce t aad text hex v h =
      opened-IsAuthentic key nonce t aad text hex v
        (decrypt_response_to_buffer p text key nonce t aad hex)
        (decrypt-IsOpened p text key nonce t aad hex) h

  -- In prod mode with keys, what is returned for a reply that names the cipher and its nonce was
  -- authenticated for this request: the signed text of the request is the associated data.
  pub open_sealed-IsAuthentic :
      (keys : DerivedKeys) (t : ℕ) (nonce method path body text : String) (response : HttpResponse)
      (v : Value)
      → response.header "x-response-aead" ≡ some "XChaCha20Poly1305"
      → is_present (response.header "x-response-nonce") ≡ true
      → open_sealed p keys t nonce method path body response text ≡ ok v
      → IsAuthentic p keys.response_key nonce t
          (canonical method path t nonce body)
          text
          (response.header "x-response-nonce")
          v
  unfolding open_sealed
  open_sealed-IsAuthentic keys t nonce method path body text response v named announced h =
      decrypted-IsAuthentic keys.response_key nonce t (canonical method path t nonce body) text
        (response.header "x-response-nonce") v (rw (named, announced) at h)

  -- A reply that names no cipher and does not look like base64 is taken as it stands, also in prod
  -- mode: nothing of it is authenticated.
  open_sealed_plain :
      (keys : DerivedKeys) (t : ℕ) (nonce method path body text : String) (response : HttpResponse)
      → response.header "x-response-aead" ≡ none
      → looks_base64 text ≡ false
      → text ≢ ""
      → open_sealed p keys t nonce method path body response text ≡ p.json_parse text
  unfolding open_sealed
  open_sealed_plain keys t nonce method path body text response none_named plain full =
      rw (none_named, plain) (parse_or_empty_full text full)

-- The status of an error reply decides the error: its status code, and what kind of error the
-- caller is told of.
refusal_kinds :
    (mode : NodeMode) (status : ℕ) (text : String)
    → (status_code_of (refusal mode status text) ≡ some status)
      × (is_auth_error (refusal mode status text) ≡ (nat_eq status 401 || nat_eq status 403))
      × (is_rate_limit_error (refusal mode status text) ≡ nat_eq status 429)
      × (is_network_error (refusal mode status text) ≡ (leb 500 status && ltb status 600))
unfolding refusal is_auth_error is_rate_limit_error is_network_error
refusal_kinds dev status text = ground arith
refusal_kinds prod status text = ground arith
