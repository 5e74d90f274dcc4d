-- ===== src/Sdk/Client/Endpoints/Serving.antt =====
-- Each method of the client (onvm-sdk/src/client.ts) is served by the handler of the node that is meant
-- for it.
use package.text.Mathlib.Text.{◌==◌ as str_eq}
use text.Mathlib.TextLemmas.{nil-append, append-nil}
use Prim.Native.String
use Prim.Native.Char.{Char, code}
use mathlib.Core.Bool.{false≢true}
use onvm.Base.{
  Bool-cases, inr, ap, sym, ◌∙◌, arith, ℕ, Bool, ◌&&◌, ◌||◌, leb, ◌^◌, ◌==◌ as nat_eq, ◌≡◌, refl,
  String, true, false, Option, none, some, [], ◌∷◌, inl,
}
use onvm.Base.Texts.{before}
use onvm.Base.Pieces.{split, splice, split-append, split-lacks, lacks, before-append}
use onvm.Sdk.Client.Methods.{Call, route}
use onvm.Sdk.Client.Methods.Shapes.{
  texts-AllItems, optional_text-nullable, optional_number-IsBelow, IsBelow, optional_texts-Has,
}
use onvm.Sdk.Client.Endpoints.{Endpoint, endpoints, dispatch, pieces}
use onvm.Js.Shape.{Has}
use onvm.Js.Value.{Value}

-- The characters that a URL keeps as they are, and which have no meaning in it: letters, digits, the
-- hyphen and the underscore.
abbrev is_plain : ℕ → Bool
is_plain n =
    (leb 48 n && leb n 57)
    || ((leb 65 n && leb n 90) || ((leb 97 n && leb n 122) || (nat_eq n 45 || nat_eq n 95)))

abbrev all_plain : String → Bool
all_plain String.[] = true
all_plain (String.◌∷◌ c s) = is_plain (code c) && all_plain s

eq-of-test : (a b : ℕ) → nat_eq a b ≡ true → a ≡ b
eq-of-test a b h = ground arith

and-left : (a b : Bool) → (a && b) ≡ true → a ≡ true
and-left true b h = refl
and-left false b h = h

and-right : (a b : Bool) → (a && b) ≡ true → b ≡ true
and-right true b h = h
and-right false b h = cc

plain-lacks :
    (d : Char) (s : String) → is_plain (code d) ≡ false → all_plain s ≡ true → lacks d s ≡ true
plain-lacks d String.[] e h = refl
plain-lacks d (String.◌∷◌ c s) e h = elim (Bool-cases (nat_eq (code c) (code d))) [
  | inl same ↦ absurd (
      false≢true (sym e ∙ (ap is_plain (sym (eq-of-test (code c) (code d) same)) ∙ and-left _ _ h)))
  | inr other ↦ rw (other, plain-lacks d s e (and-right (is_plain (code c)) _ h)) refl
]

-- A piece of a path: it is not empty, and all its characters are plain.
abbrev pub IsPiece : String → Type 0
IsPiece id = (all_plain id ≡ true) × (str_eq id "" ≡ false)

-- The pieces of a path that holds an id.
pub pieces-append :
    (a id t : String)
    → lacks "?" a ≡ true
    → IsPiece id
    → pieces (String.◌++◌ a (String.◌++◌ id t))
      ≡ splice (split "/" a) (splice (id ∷ []) (split "/" (before "?" t)))
pieces-append a id t clean (plain, _) =
    let slash = plain-lacks "/" id refl plain in
    let question = plain-lacks "?" id refl plain in
    rw (before-append "?" a (String.◌++◌ id t), clean, before-append "?" id t, question)
      (rw
        (
          split-append "/" a (String.◌++◌ id (before "?" t)),
          split-append "/" id (before "?" t),
          split-lacks "/" id slash,
        )
        refl)

-- The handler that is meant for a method.
abbrev pub handler_of : Call → String
handler_of Call.health = "health"
handler_of Call.liveness = "liveness"
handler_of Call.readiness = "readiness"
handler_of Call.metrics = "metrics"
handler_of (Call.create_project r) = "create_project"
handler_of (Call.deploy_program r) = "deploy_program"
handler_of (Call.get_program_info id) = "program_info"
handler_of (Call.execute_program r) = "execute_program"
handler_of (Call.estimate_fuel r) = "estimate_fuel"
handler_of (Call.get_fuel_profile id) = "get_fuel_profile"
handler_of (Call.get_program_receipts id) = "program_receipts"
handler_of (Call.get_program_committee id) = "program_committee"
handler_of (Call.get_program_state_root id key) = "program_state_root"
handler_of Call.list_program_catalog = "list_program_catalog"
handler_of (Call.submit_job r) = "submit_job"
handler_of (Call.get_job_status id) = "get_job_status"
handler_of (Call.get_job_logs id) = "get_job_logs"
handler_of (Call.get_job_output id) = "get_job_output"
handler_of (Call.cancel_job id) = "cancel_job"
handler_of Call.list_jobs = "list_jobs"

-- The id in the path of a method is a piece, and the number of retries of a job fits in 32 bits.
abbrev pub HasPiece : Call → Type 0
HasPiece Call.health = Unit
HasPiece Call.liveness = Unit
HasPiece Call.readiness = Unit
HasPiece Call.metrics = Unit
HasPiece (Call.create_project r) = Unit
HasPiece (Call.deploy_program r) = Unit
HasPiece (Call.get_program_info id) = IsPiece id
HasPiece (Call.execute_program r) = Unit
HasPiece (Call.estimate_fuel r) = Unit
HasPiece (Call.get_fuel_profile id) = IsPiece id
HasPiece (Call.get_program_receipts id) = IsPiece id
HasPiece (Call.get_program_committee id) = IsPiece id
HasPiece (Call.get_program_state_root id key) = IsPiece id
HasPiece Call.list_program_catalog = Unit
HasPiece (Call.submit_job r) = IsBelow (2 ^ 32) r.max_retries
HasPiece (Call.get_job_status id) = IsPiece id
HasPiece (Call.get_job_logs id) = IsPiece id
HasPiece (Call.get_job_output id) = IsPiece id
HasPiece (Call.cancel_job id) = IsPiece id
HasPiece Call.list_jobs = Unit

-- The request reaches this handler, which can read its body.
abbrev pub Reaches : Option Endpoint → (handler : String) → (body : Value) → Type 0
Reaches none handler body = ⊥
Reaches (some e) handler body = (e.handler ≡ handler) × Has e.body body

module _ (encode_uri : String → String) where
  abbrev pub IsServed : Call → Type 0
  IsServed call =
      let r = route encode_uri call in
      Reaches (dispatch endpoints r.method (pieces r.path)) (handler_of call) r.body

  -- Every method but the two for blobs reaches the handler that is meant for it with a body that the
  -- handler can read, if the id in its path is not empty and made of letters, digits, hyphens and
  -- underscores, and the number of retries of a job is below 2 ^ 32.
  pub route-IsServed : (call : Call) → HasPiece call → IsServed call
  unfolding Has route
  route-IsServed Call.health h = (refl, tt)
  route-IsServed Call.liveness h = (refl, tt)
  route-IsServed Call.readiness h = (refl, tt)
  route-IsServed Call.metrics h = (refl, tt)
  route-IsServed (Call.create_project r) h =
      (refl, (_, refl, ((_, refl), (optional_text-nullable r.project_id, (inl refl, tt)))))
  route-IsServed (Call.deploy_program r) h =
      (refl, (_, refl, ((_, refl), ((_, refl), ((_, refl, texts-AllItems r.blob_refs), tt)))))
  route-IsServed (Call.execute_program r) h = (refl, (_, refl, ((_, refl), ((_, refl), tt))))
  route-IsServed (Call.estimate_fuel r) h = (refl, (_, refl, ((_, refl), ((_, refl), tt))))
  route-IsServed Call.list_program_catalog h = (refl, tt)
  route-IsServed (Call.submit_job r) h = (
    refl,
    (
      _,
      refl,
      (
        (_, refl),
        (
          (_, refl),
          (
            optional_text-nullable r.input_base64,
            (
              optional_text-nullable r.input_blob_id,
              (
                optional_number-IsBelow (2 ^ 32) r.max_retries h,
                (optional_texts-Has r.metadata, tt),
              ),
            ),
          ),
        ),
      ),
    ),
  )
  route-IsServed Call.list_jobs h = (refl, tt)
  route-IsServed (Call.get_program_info id) h =
      rw (pieces-append "/programs/" id "" refl h, nil-append, append-nil, h.1) (refl, tt)
  route-IsServed (Call.get_fuel_profile id) h =
      rw (pieces-append "/fuel-profile/" id "" refl h, nil-append, append-nil, h.1) (refl, tt)
  route-IsServed (Call.get_program_receipts id) h =
      rw
        (
          pieces-append "/programs/" id (String.◌++◌ "/receipts" "") refl h,
          nil-append,
          append-nil,
          h.1,
        )
        (refl, tt)
  route-IsServed (Call.get_program_committee id) h =
      rw
        (
          pieces-append "/programs/" id (String.◌++◌ "/committee" "") refl h,
          nil-append,
          append-nil,
          h.1,
        )
        (refl, tt)
  route-IsServed (Call.get_job_status id) h =
      rw (pieces-append "/jobs/" id "" refl h, nil-append, append-nil, h.1) (refl, tt)
  route-IsServed (Call.get_job_logs id) h =
      rw (pieces-append "/jobs/" id (String.◌++◌ "/logs" "") refl h, nil-append, append-nil, h.1)
        (refl, tt)
  route-IsServed (Call.get_job_output id) h =
      rw (pieces-append "/jobs/" id (String.◌++◌ "/output" "") refl h, nil-append, append-nil, h.1)
        (refl, tt)
  route-IsServed (Call.cancel_job id) h =
      rw (pieces-append "/jobs/" id (String.◌++◌ "/cancel" "") refl h, nil-append, append-nil, h.1)
        (refl, tt)
  route-IsServed (Call.get_program_state_root id none) h =
      rw
        (
          pieces-append "/programs/" id (String.◌++◌ "/state-root" "") refl h,
          nil-append,
          append-nil,
          h.1,
        )
        (refl, tt)
  route-IsServed (Call.get_program_state_root id (some String.[])) h =
      rw
        (
          pieces-append "/programs/" id (String.◌++◌ "/state-root" "") refl h,
          nil-append,
          append-nil,
          h.1,
        )
        (refl, tt)
  route-IsServed (Call.get_program_state_root id (some (String.◌∷◌ c k))) h =
      rw
        (
          pieces-append "/programs/" id
              (String.◌++◌ "/state-root?key=" (String.◌++◌ (encode_uri (String.◌∷◌ c k)) "")) refl
              h,
          before-append "?" "/state-root?key=",
          nil-append,
          append-nil,
          h.1,
        )
        (refl, tt)
