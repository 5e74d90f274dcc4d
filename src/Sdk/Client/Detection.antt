-- ===== src/Sdk/Client/Detection.antt =====
-- What `detectNodeMode` remembers, and what it sends.
use onvm.Sdk.Errors.{Fault}
use onvm.Base.{
  ◌≡◌, refl, ap, sym, ◌∙◌, Bool, true, false, if◌then◌else◌, Option, none, some, ◌∷◌, arith,
}
use onvm.Sdk.Client.{NodeMode, dev, prod, Session, lacks_credentials}
use onvm.Sdk.Client.Mode.{
  probe, detect_from, unreachable, detect_node_mode, liveness_request, missing_credentials,
}
use onvm.Js.Value.{Value, is_text}
use onvm.Js.Result.{Result, ok, throw, member}
use onvm.Js.Io.Laws.{catch-fail_state}
use onvm.Js.Io.{Io, catch, handle, fail}
use onvm.Js.Platform.{Platform, HttpResponse, is_ok, json_of}

-- What a run of the `try` block leaves behind: the probe is the only request, and only the mode is
-- written.
record IsProbe (s s' : Session) : Type 0 where
  asked : s'.sent ≡ (liveness_request s.client.rpc_url ∷ s.sent)
  written : s'.client ≡ record (s.client) { detected_node_mode = s'.client.detected_node_mode }

-- The mode that a reply tells: that of a good reply whose JSON has a mode is "dev" or, for anything else,
-- prod.
abbrev mode_in : Platform → Value → Option NodeMode
mode_in p live = elim (member live "mode") [
  | throw e ↦ none
  | ok v ↦ some (if is_text v "dev" then dev else prod)
]

abbrev told : Platform → Result HttpResponse → Option NodeMode
told p (throw e) = none
told p (ok response) =
    if is_ok response
    then elim (json_of p response) [ throw e ↦ none | ok live ↦ mode_in p live ]
    else none

-- What a client does with it: prod is refused without credentials.
abbrev usable : (lacks : Bool) → Option NodeMode → Option NodeMode
usable lacks none = none
usable lacks (some dev) = some dev
usable lacks (some prod) = if lacks then none else some prod

abbrev returned : Result NodeMode → Option NodeMode
returned (ok mode) = some mode
returned (throw e) = none

-- `detectNodeMode` in a state where the mode is known, or is not.
abbrev pub Detects : Platform → Option NodeMode → Session → Session → Result NodeMode → Type 0
Detects p (some known) s s' r = (r ≡ ok known) × (s' ≡ s)
Detects p none s s' r =
    let mode = told p (p.fetch s.sent (liveness_request s.client.rpc_url)) in
    (s'.sent ≡ (liveness_request s.client.rpc_url ∷ s.sent))
    × (s'.client ≡ record (s.client) { detected_node_mode = s'.client.detected_node_mode })
    × (s'.client.detected_node_mode
        ≡ (elim mode [ none ↦ s.client.detected_node_mode | some m ↦ some m ]))
    × (returned r ≡ usable (lacks_credentials s.client) mode)

usable-eq-some :
    (lacks : Bool) (told_mode : Option NodeMode) (mode : NodeMode)
    → usable lacks told_mode ≡ some mode
    → told_mode ≡ some mode
usable-eq-some lacks none mode h = cc
usable-eq-some lacks (some dev) mode h = h
usable-eq-some true (some prod) mode h = cc
usable-eq-some false (some prod) mode h = h

Detects-remembers :
    (p : Platform) (known : Option NodeMode) (s s' : Session) (r : Result NodeMode)
    (mode : NodeMode)
    → s.client.detected_node_mode ≡ known
    → Detects p known s s' r
    → r ≡ ok mode
    → s'.client.detected_node_mode ≡ some mode
Detects-remembers p (some known) s s' r mode e d h = rw d.1 (e ∙ cc (d.0))
Detects-remembers p none s s' r mode e d h =
    let seen =
      usable-eq-some (lacks_credentials s.client)
        (told p (p.fetch s.sent (liveness_request s.client.rpc_url))) mode (sym (rw h at d.3)) in
    rw (d.2, seen) refl

returned-handle :
    (r : Result NodeMode) (f : Fault → Fault) (s : Session)
    → returned (handle r (λ e. fail (f e)) s).0 ≡ returned r
returned-handle (ok mode) f s = refl
returned-handle (throw e) f s = refl

returned-catch :
    (m : Io Session NodeMode) (f : Fault → Fault) (s : Session)
    → returned (catch m (λ e. fail (f e)) s).0 ≡ returned (m s).0
returned-catch m f s = returned-handle (m s).0 f (m s).1

module _ (p : Platform) where
  probe-IsProbe : (s : Session) → IsProbe s (probe p s).1
  unfolding probe
  probe-IsProbe s = record { asked = ground arith; written = ground arith }

  probe_remembers :
      (s : Session) (mode : NodeMode)
      → (probe p s).0 ≡ ok mode
      → (probe p s).1.client.detected_node_mode ≡ some mode
  unfolding probe
  probe_remembers s mode h = ground arith

  probe_mode :
      (s : Session)
      → let mode = told p (p.fetch s.sent (liveness_request s.client.rpc_url)) in
        ((probe p s).1.client.detected_node_mode
          ≡ (elim mode [ none ↦ s.client.detected_node_mode | some m ↦ some m ]))
        × (returned (probe p s).0 ≡ usable (lacks_credentials s.client) mode)
  unfolding probe
  probe_mode s = (ground arith, ground arith)

  detect_from-Detects :
      (known : Option NodeMode) (s : Session)
      → Detects p known s (detect_from p known s).1 (detect_from p known s).0
  unfolding detect_from
  detect_from-Detects (some mode) s = (refl, refl)
  detect_from-Detects none s =
      let e = catch-fail_state (probe p) (unreachable s.client.rpc_url) s in
      let after = probe-IsProbe s in
      rw e (
        after.asked,
        after.written,
        (probe_mode s).0,
        returned-catch (probe p) (unreachable s.client.rpc_url) s ∙ (probe_mode s).1,
      )

  -- A known mode is returned, and nothing is sent or changed. An unknown one costs one request, the
  -- unsigned GET of the liveness endpoint. If the reply is good and its JSON has a mode, this mode is
  -- remembered, dev if it is the text "dev" and prod else, and nothing else of the client changes; it is
  -- returned, but for prod without credentials. In all other cases nothing is returned.
  pub detect_node_mode-Detects :
      (s : Session)
      → Detects p s.client.detected_node_mode s (detect_node_mode p s).1 (detect_node_mode p s).0
  unfolding detect_node_mode
  detect_node_mode-Detects s = detect_from-Detects s.client.detected_node_mode s

  pub detect_node_mode_known :
      (s : Session) (mode : NodeMode)
      → s.client.detected_node_mode ≡ some mode
      → detect_node_mode p s ≡ (ok mode, s)
  unfolding detect_node_mode
  detect_node_mode_known s mode e = ap (λ k. detect_from p k s) e

  -- A mode that was returned once is returned again, with no further request and no change.
  detect_node_mode_twice :
      (s : Session) (mode : NodeMode)
      → (detect_node_mode p s).0 ≡ ok mode
      → detect_node_mode p (detect_node_mode p s).1 ≡ (ok mode, (detect_node_mode p s).1)
  detect_node_mode_twice s mode h = detect_node_mode_known (detect_node_mode p s).1 mode (
      Detects-remembers p s.client.detected_node_mode s _ _ mode refl (detect_node_mode-Detects s)
        h)

  module _ (s : Session) (response : HttpResponse) (live mode_value : Value) where
    abbrev reported : Session
    reported = record {
      client = record (s.client) { detected_node_mode = some prod };
      sent = liveness_request s.client.rpc_url ∷ s.sent;
    }

    probe_refuses :
        lacks_credentials s.client ≡ true
        → p.fetch s.sent (liveness_request s.client.rpc_url) ≡ ok response
        → is_ok response ≡ true
        → json_of p response ≡ ok live
        → member live "mode" ≡ ok mode_value
        → is_text mode_value "dev" ≡ false
        → probe p s ≡ (throw missing_credentials, reported)
    unfolding probe
    probe_refuses lacks sent good parsed read other =
        rw (sent, good, parsed, read, other, lacks) refl

    -- A node in prod mode is reported once to a client without credentials. The mode is remembered
    -- all the same, so the next call does not refuse.
    pub missing_credentials_once :
        s.client.detected_node_mode ≡ none
        → lacks_credentials s.client ≡ true
        → p.fetch s.sent (liveness_request s.client.rpc_url) ≡ ok response
        → is_ok response ≡ true
        → json_of p response ≡ ok live
        → member live "mode" ≡ ok mode_value
        → is_text mode_value "dev" ≡ false
        → ((detect_node_mode p s).0 ≡ throw missing_credentials)
          × (detect_node_mode p (detect_node_mode p s).1 ≡ (ok prod, (detect_node_mode p s).1))
    unfolding detect_node_mode
    missing_credentials_once fresh lacks sent good parsed read other =
        let first : detect_node_mode p s ≡ (throw missing_credentials, reported) =
          ap (λ k. detect_from p k s) fresh
          ∙ ap (λ r. handle r.0 (λ e. fail (unreachable s.client.rpc_url e)) r.1)
              (probe_refuses lacks sent good parsed read other) in
        rw first (refl, refl)
