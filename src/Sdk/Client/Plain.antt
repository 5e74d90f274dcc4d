-- ===== src/Sdk/Client/Plain.antt =====
-- A whole request that is not signed: in dev mode, or without credentials.
use onvm.Base.{◌≡◌, refl, ap, ◌∙◌, String, none, some, arith, if◌then◌else◌}
use onvm.Sdk.Client.{OnvmClient, NodeMode, dev, prod, Session}
use onvm.Sdk.Client.Detection.{detect_node_mode_known}
use onvm.Sdk.Client.Reply.{Stamp, sealed_by, refusal, parse_or_empty, open_reply, receive}
use onvm.Sdk.Client.Request.{
  unsigned, signer, sign, body_text, signed_headers, http_request, exchange, attempt, endpoint_of,
  recast, request_in, request,
}
use onvm.Js.Value.{Value}
use onvm.Js.Result.{Result, ok, throw, rethrow, ◌>>=◌}
use onvm.Js.Io.{resume}
use onvm.Js.Io.Laws.{handle-rethrow, resume-lift}
use onvm.Js.Platform.{Platform, Headers, Trace, HttpResponse, is_ok, text_of}

>>=_ext :
    {A B : Type 0} (r : Result A) (f g : A → Result B)
    → ((a : A) → f a ≡ g a)
    → (r >>= f) ≡ (r >>= g)
>>=_ext (ok a) f g h = h a
>>=_ext (throw e) f g h = refl

sealed_by-unsigned : (mode : NodeMode) (c : OnvmClient) → sealed_by mode c unsigned ≡ none
sealed_by-unsigned dev c = refl
sealed_by-unsigned prod c = ground arith

sign-unsigned :
    (p : Platform) (sent : Trace) (mode : NodeMode) (c : OnvmClient) (method path body : String)
    (h : Headers)
    → signer mode c ≡ none
    → (sign p sent mode c method path body h).1 ≡ unsigned
unfolding sign
sign-unsigned p sent mode c method path body h e = rw (e, sign) refl

open_reply_plain :
    (p : Platform) (mode : NodeMode) (c : OnvmClient) (stamp : Stamp) (method path b : String)
    (r : HttpResponse) (t : String)
    → sealed_by mode c stamp ≡ none
    → open_reply p mode c stamp method path b r t ≡ parse_or_empty p t
unfolding open_reply
open_reply_plain p mode c stamp method path b r t e = rw (e, open_reply) refl

module _ (p : Platform) (method path : String) (body : Value) (custom : Headers) (s : Session) where
  -- The reply to a request that is not signed.
  abbrev read_plain : NodeMode → Result HttpResponse → Result Value
  read_plain mode sent = sent >>= λ r.
      text_of p r >>= λ t. if is_ok r then parse_or_empty p t else throw (refusal mode r.status t)

  receive_plain :
      (mode : NodeMode) (c : OnvmClient) (stamp : Stamp) (b : String) (r : HttpResponse)
      → sealed_by mode c stamp ≡ none
      → receive p mode c stamp method path b r ≡ read_plain mode (ok r)
  unfolding receive
  receive_plain mode c stamp b r e = >>=_ext (text_of p r) _ _ (λ t.
      ap (λ x. if is_ok r then x else throw (refusal mode r.status t))
        (open_reply_plain p mode c stamp method path b r t e))

  attempt_plain :
      (mode : NodeMode)
      → signer mode s.client ≡ none
      → (attempt p method path body custom mode s).0
        ≡ read_plain mode (p.fetch s.sent (http_request p method path body custom mode s))
  unfolding exchange
  attempt_plain mode unsigned_mode =
      let stamp = (signed_headers p method path body custom mode s).1 in
      let e : sealed_by mode s.client stamp ≡ none =
        ap (sealed_by mode s.client)
          (sign-unsigned p s.sent mode s.client method path (body_text p body) _ unsigned_mode)
        ∙ sealed_by-unsigned mode s.client in
      resume-lift (p.fetch s.sent (http_request p method path body custom mode s))
        (receive p mode s.client stamp method path (body_text p body)) _
      ∙ >>=_ext (p.fetch s.sent (http_request p method path body custom mode s)) _ _
          (λ r. receive_plain mode s.client stamp (body_text p body) r e)

  -- In a known mode, a request that is not signed returns the JSON of the reply, or fails by the reply's status; an
  -- error of the network or of the parser is recast.
  request_plain :
      (mode : NodeMode)
      → s.client.detected_node_mode ≡ some mode
      → signer mode s.client ≡ none
      → (request p method path body custom s).0
        ≡ rethrow
            (recast (endpoint_of s.client path))
            (read_plain mode (p.fetch s.sent (http_request p method path body custom mode s)))
  unfolding request request_in
  request_plain mode known unsigned_mode =
      ap
        (λ (r : Result NodeMode × Session).
          (resume r.0 (request_in p method path body custom) r.1).0)
        (detect_node_mode_known p s mode known)
      ∙ handle-rethrow _ _ _
      ∙ ap (rethrow (recast (endpoint_of s.client path))) (attempt_plain mode unsigned_mode)
