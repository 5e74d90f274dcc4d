-- ===== src/Programs/Identity/Settling.antt =====
-- The identity client (wasm_programs/identity_card/ui/lib/onvm-client.ts) with the answers of its program
-- (wasm_programs/identity_card/src/lib.rs).
use package.text.Mathlib.Text.{◌==◌}
use onvm.Base.{◌≡◌, ◌⊎◌, ◌↔◌, refl, ap, inl, inr, String, some, false}
use onvm.Base.Texts.{or_text}
use onvm.Sdk.Errors.{builtin}
use onvm.Sdk.Client.{Session}
use onvm.Programs.Execute.{run_program, execute_program}
use onvm.Programs.Identity.{IdentityOp, op_value, perform}
use onvm.Programs.Identity.Types.{identity, identity_summary}
use onvm.Programs.Identity.Typing.{
  identity_requests, request_type, result_type, op_value-IsAccepted,
}
use onvm.Programs.Identity.Program.{
  Identity, IdentitySummary, identity_value, summary_value, response_value, Output, success,
  respond, HasDetails, IsDetailed,
}
use onvm.Js.Serde.{items-AllItems, option_value, option_value-IsPresent}
use onvm.Js.Shape.{Has, IsVariant, Succeeds}
use onvm.Js.Value.{Value, Fields, field, obj, str, field_of, peek, show_value-or_value}
use onvm.Js.Result.{Result, ok, throw}
use onvm.Js.Platform.{Platform}

summary_value-Has : (i : IdentitySummary) → Has identity_summary (summary_value i)
unfolding Has
summary_value-Has i = (_, refl, ((_, refl), ((_, refl), ((_, refl), ((_, refl), ((_, refl), tt))))))

details_of : (i : Identity) → Has identity (identity_value i) → HasDetails i
unfolding Has
details_of i (fs, e, (_, (_, (_, (bio, (avatar_url, _)))))) =
    let same_bio : option_value i.bio ≡ field_of fs "bio" = ap (λ v. peek v "bio") e in
    let same_avatar_url : option_value i.avatar_url ≡ field_of fs "avatar_url" =
      ap (λ v. peek v "avatar_url") e in
    (
      (option_value-IsPresent i.bio).0 (rw (← same_bio) at bio),
      (option_value-IsPresent i.avatar_url).0 (rw (← same_avatar_url) at avatar_url),
    )

-- What the program writes of an identity has the declared type exactly if the identity has its details.
identity_value-HasDetails : (i : Identity) → Has identity (identity_value i) ↔ HasDetails i
unfolding Has
identity_value-HasDetails i = (
  details_of i,
  λ d. (
    _,
    refl,
    (
      (_, refl),
      (
        (_, refl),
        (
          (_, refl),
          (
            (option_value-IsPresent i.bio).1 d.0,
            (
              (option_value-IsPresent i.avatar_url).1 d.1,
              ((_, refl), ((_, refl), ((_, refl), ((_, refl), tt)))),
            ),
          ),
        ),
      ),
    ),
  ),
)

moved : (P : Value → Type 0) (v w : Value) → v ≡ w → P w → P v
moved P v w e h = rw e h

-- The reply of the program has the declared type exactly if the identity in it has its details.
success-IsDetailed :
    (op : IdentityOp) (o : Output op)
    → Has (result_type op) (response_value (success op o)) ↔ IsDetailed op o
unfolding Has
success-IsDetailed (IdentityOp.register_identity r) (i, card_svg) = (
  λ (fs, e, (_, (_, (h, _)))). (identity_value-HasDetails i).0 (
      moved (Has identity) (identity_value i) (field_of fs "identity")
        (ap (λ v. peek v "identity") e) h),
  λ d. (_, refl, (refl, ((_, refl), ((identity_value-HasDetails i).1 d, ((_, refl), tt))))),
)
success-IsDetailed (IdentityOp.get_identity id) i = (
  λ (fs, e, (_, (h, _))). (identity_value-HasDetails i).0 (
      moved (Has identity) (identity_value i) (field_of fs "identity")
        (ap (λ v. peek v "identity") e) h),
  λ d. (_, refl, (refl, ((identity_value-HasDetails i).1 d, tt))),
)
success-IsDetailed (IdentityOp.update_identity r) i = (
  λ (fs, e, (_, (_, (h, _)))). (identity_value-HasDetails i).0 (
      moved (Has identity) (identity_value i) (field_of fs "identity")
        (ap (λ v. peek v "identity") e) h),
  λ d. (_, refl, (refl, ((_, refl), ((identity_value-HasDetails i).1 d, tt)))),
)
success-IsDetailed (IdentityOp.get_identity_card id format) o =
    (λ h. tt, λ d. (_, refl, (refl, ((_, refl), ((_, refl), ((_, refl), tt))))))
success-IsDetailed IdentityOp.list_all_identities is = (
  λ h. tt,
  λ d. (
    _,
    refl,
    (
      refl,
      (
        (_, refl, items-AllItems (Has identity_summary) summary_value summary_value-Has is),
        ((_, refl), tt),
      ),
    ),
  ),
)
success-IsDetailed IdentityOp.get_stats (n, m, root) =
    (λ h. tt, λ d. (_, refl, (refl, ((_, refl), ((_, refl), ((_, refl), tt))))))

-- An object whose first member is the status.
succeeds :
    (status : String) (rest : Fields)
    → (status == "err") ≡ false
    → Succeeds "err" (obj (field "status" (str status) rest))
succeeds status rest good = record {
  fs = field "status" (str status) rest;
  status = status;
  is_object = refl;
  has_status = refl;
  no_error = good;
}

success-Succeeds :
    (op : IdentityOp) (o : Output op) → Succeeds "err" (response_value (success op o))
success-Succeeds (IdentityOp.register_identity r) (i, card_svg) = succeeds "okregister" _ refl
success-Succeeds (IdentityOp.get_identity id) i = succeeds "okprofile" _ refl
success-Succeeds (IdentityOp.update_identity r) i = succeeds "okupdate" _ refl
success-Succeeds (IdentityOp.get_identity_card id format) o = succeeds "okcard" _ refl
success-Succeeds IdentityOp.list_all_identities is = succeeds "oklist" _ refl
success-Succeeds IdentityOp.get_stats (n, m, root) = succeeds "okstats" _ refl

-- How a method ends, by what the program did: its reply is returned as it is, and has the declared type
-- exactly if the identity in it has its details; an error is thrown.
abbrev pub Ends : (op : IdentityOp) → Output op ⊎ String → Session → Result Value × Session → Type 0
Ends op (inl o) s' r =
    (r ≡ (ok (response_value (success op o)), s'))
    × (Has (result_type op) (response_value (success op o)) ↔ IsDetailed op o)
Ends op (inr e) s' r = r ≡ (throw (builtin "Error" (or_text (some e) "Unknown error occurred")), s')

module _ (encode_uri : String → String) (p : Platform) (program_id : String) where
  -- A method sends a request that the program accepts and that has the declared type. If the reply is what
  -- the program answers to it, the method returns the reply if the program succeeds, and it has the
  -- declared type exactly if the identity in it has a bio and an avatar; if the program fails, its message
  -- is thrown, or another one where that is empty.
  pub perform-Ends :
      (op : IdentityOp) (o : Output op ⊎ String) (s s' : Session)
      → run_program encode_uri p program_id (op_value op) s
        ≡ (ok (response_value (respond op o)), s')
      → IsVariant "op" identity_requests (op_value op)
        × Has (request_type op) (op_value op)
        × Ends op o s' (perform encode_uri p program_id op s)
  unfolding perform execute_program
  perform-Ends op (inl o) s s' e =
      let good = success-Succeeds op o in
      let (accepted, typed) = op_value-IsAccepted op in
      (
        accepted,
        typed,
        (rw (e, good.is_object, good.has_status, good.no_error) refl, success-IsDetailed op o),
      )
  perform-Ends op (inr m) s s' e =
      let (accepted, typed) = op_value-IsAccepted op in
      (accepted, typed, rw (e, show_value-or_value m "Unknown error occurred") refl)
