-- ===== src/Sdk/Client/Safety.antt =====
-- Every error that leaves a method of the client is an error of the SDK.
use onvm.Base.{◌≡◌, refl, String, true, inl, inr, arith, Option, none, some}
use onvm.Sdk.Errors.{Fault, builtin, sdk_error, is_onvm_error}
use onvm.Sdk.Client.{Session, NodeMode}
use onvm.Sdk.Client.Mode.{unreachable, probe, detect_from, detect_node_mode}
use onvm.Sdk.Client.Request.{recast, endpoint_of, attempt, request_in, request}
use onvm.Js.Value.{Value}
use onvm.Js.Result.{throw}
use onvm.Js.Io.Laws.{>>=-eq-throw, catch-eq-throw}
use onvm.Js.Platform.{Platform, Headers}

unreachable-is_onvm_error : (url : String) (e : Fault) → is_onvm_error (unreachable url e) ≡ true
unreachable-is_onvm_error url (builtin name message) = refl
unreachable-is_onvm_error url (sdk_error class message status details) = refl

recast-is_onvm_error : (url : String) (e : Fault) → is_onvm_error (recast url e) ≡ true
unfolding recast
recast-is_onvm_error url (builtin name message) = ground arith
recast-is_onvm_error url (sdk_error class message status details) = refl

module _ (p : Platform) where
  detect_from_throws :
      (known : Option NodeMode) (s : Session) (e : Fault)
      → (detect_from p known s).0 ≡ throw e
      → is_onvm_error e ≡ true
  unfolding detect_from
  detect_from_throws (some mode) s e h = cc
  detect_from_throws none s e h =
      let (e', thrown, same) = catch-eq-throw (probe p) (unreachable s.client.rpc_url) s e h in
      rw same (unreachable-is_onvm_error s.client.rpc_url e')

  detect_node_mode_throws :
      (s : Session) (e : Fault) → (detect_node_mode p s).0 ≡ throw e → is_onvm_error e ≡ true
  unfolding detect_node_mode
  detect_node_mode_throws s e h = detect_from_throws s.client.detected_node_mode s e h

  module _ (method path : String) (body : Value) (custom : Headers) where
    request_in_throws :
        (mode : NodeMode) (s : Session) (e : Fault)
        → (request_in p method path body custom mode s).0 ≡ throw e
        → is_onvm_error e ≡ true
    unfolding request_in
    request_in_throws mode s e h =
        let url = endpoint_of s.client path in
        let (e', thrown, same) =
          catch-eq-throw (attempt p method path body custom mode) (recast url) s e h in
        rw same (recast-is_onvm_error url e')

    -- Whatever the node, the network or the body do, an error that `request` throws is an error
    -- of the SDK.
    pub request_throws :
        (s : Session) (e : Fault)
        → (request p method path body custom s).0 ≡ throw e
        → is_onvm_error e ≡ true
    unfolding request
    request_throws s e h =
        elim (>>=-eq-throw (detect_node_mode p) (request_in p method path body custom) s e h) [
          | inl d ↦ detect_node_mode_throws s e d
          | inr (mode, d, later) ↦ request_in_throws mode _ e later
        ]
