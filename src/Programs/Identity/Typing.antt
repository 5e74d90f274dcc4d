-- ===== src/Programs/Identity/Typing.antt =====
-- The requests of the identity client (wasm_programs/identity_card/ui/lib/onvm-client.ts) are requests
-- of the program (wasm_programs/identity_card/src/lib.rs), and its methods return what their types say.
use onvm.Base.{◌≡◌, refl, String, List, [], ◌∷◌}
use onvm.Sdk.Client.{Session}
use onvm.Sdk.Client.Methods.Shapes.{optional_text-Has, optional_text-nullable}
use onvm.Programs.Execute.{run_program, execute_program}
use onvm.Programs.Identity.{IdentityOp, op_value, perform}
use onvm.Programs.Identity.Types.{
  register_request, get_profile_request, update_profile_request, get_card_request,
  register_response, get_profile_response, update_profile_response, get_card_response,
  list_all_response, stats_response,
}
use onvm.Js.Shape.{
  Shape, any, text, nullable, Members, done, ◌⨾◌, ◌∶◌, ◌∶?◌, Has, IsVariant, Succeeds,
}
use onvm.Js.Value.{Value}
use onvm.Js.Result.{ok}
use onvm.Js.Platform.{Platform}

-- `enum Request` of the program, whose tag is `op`: an `Option` may be missing or null.
abbrev pub identity_requests : List (String × Members)
identity_requests =
    (
      "register",
      "name" ∶ text
          ⨾ "email" ∶ text
          ⨾ "bio" ∶? nullable text
          ⨾ "avatar_url" ∶? nullable text
          ⨾ "theme" ∶? nullable text
          ⨾ done,
    )
    ∷ ("getprofile", "id" ∶ text ⨾ done)
    ∷ (
      "updateprofile",
      "id" ∶ text
          ⨾ "name" ∶? nullable text
          ⨾ "email" ∶? nullable text
          ⨾ "bio" ∶? nullable text
          ⨾ "avatar_url" ∶? nullable text
          ⨾ "theme" ∶? nullable text
          ⨾ done,
    )
    ∷ ("getcard", "id" ∶ text ⨾ "format" ∶? nullable text ⨾ done)
    ∷ ("listall", done)
    ∷ ("stats", done)
    ∷ []

-- The type of the argument of a method; two methods have none.
abbrev pub request_type : IdentityOp → Shape
request_type (IdentityOp.register_identity r) = register_request
request_type (IdentityOp.get_identity id) = get_profile_request
request_type (IdentityOp.update_identity r) = update_profile_request
request_type (IdentityOp.get_identity_card id format) = get_card_request
request_type IdentityOp.list_all_identities = any
request_type IdentityOp.get_stats = any

-- The type that a method returns.
abbrev pub result_type : IdentityOp → Shape
result_type (IdentityOp.register_identity r) = register_response
result_type (IdentityOp.get_identity id) = get_profile_response
result_type (IdentityOp.update_identity r) = update_profile_response
result_type (IdentityOp.get_identity_card id format) = get_card_response
result_type IdentityOp.list_all_identities = list_all_response
result_type IdentityOp.get_stats = stats_response

pub op_value-IsAccepted :
    (op : IdentityOp)
    → IsVariant "op" identity_requests (op_value op) × Has (request_type op) (op_value op)
unfolding Has op_value
op_value-IsAccepted (IdentityOp.register_identity r) = (
  (
    _,
    _,
    refl,
    refl,
    (
      _,
      refl,
      (
        (_, refl),
        (
          (_, refl),
          (
            optional_text-nullable r.bio,
            (optional_text-nullable r.avatar_url, (optional_text-nullable r.theme, tt)),
          ),
        ),
      ),
    ),
  ),
  (
    _,
    refl,
    (
      refl,
      (
        (_, refl),
        (
          (_, refl),
          (
            optional_text-Has r.bio,
            (optional_text-Has r.avatar_url, (optional_text-Has r.theme, tt)),
          ),
        ),
      ),
    ),
  ),
)
op_value-IsAccepted (IdentityOp.get_identity id) =
    ((_, _, refl, refl, (_, refl, ((id, refl), tt))), (_, refl, (refl, ((id, refl), tt))))
op_value-IsAccepted (IdentityOp.update_identity r) = (
  (
    _,
    _,
    refl,
    refl,
    (
      _,
      refl,
      (
        (_, refl),
        (
          optional_text-nullable r.name,
          (
            optional_text-nullable r.email,
            (
              optional_text-nullable r.bio,
              (optional_text-nullable r.avatar_url, (optional_text-nullable r.theme, tt)),
            ),
          ),
        ),
      ),
    ),
  ),
  (
    _,
    refl,
    (
      refl,
      (
        (_, refl),
        (
          optional_text-Has r.name,
          (
            optional_text-Has r.email,
            (
              optional_text-Has r.bio,
              (optional_text-Has r.avatar_url, (optional_text-Has r.theme, tt)),
            ),
          ),
        ),
      ),
    ),
  ),
)
op_value-IsAccepted (IdentityOp.get_identity_card id format) = (
  (_, _, refl, refl, (_, refl, ((id, refl), (optional_text-nullable format, tt)))),
  (_, refl, (refl, ((id, refl), (optional_text-Has format, tt)))),
)
op_value-IsAccepted IdentityOp.list_all_identities = ((_, _, refl, refl, (_, refl, tt)), tt)
op_value-IsAccepted IdentityOp.get_stats = ((_, _, refl, refl, (_, refl, tt)), tt)

-- A reply of this type has a status other than "err".
result_type-Succeeds : (op : IdentityOp) (r : Value) → Has (result_type op) r → Succeeds "err" r
unfolding Has
result_type-Succeeds (IdentityOp.register_identity q) r (fs, e, h) = record {
  fs = fs;
  status = _;
  is_object = e;
  has_status = h.0;
  no_error = refl;
}
result_type-Succeeds (IdentityOp.get_identity id) r (fs, e, h) = record {
  fs = fs;
  status = _;
  is_object = e;
  has_status = h.0;
  no_error = refl;
}
result_type-Succeeds (IdentityOp.update_identity q) r (fs, e, h) = record {
  fs = fs;
  status = _;
  is_object = e;
  has_status = h.0;
  no_error = refl;
}
result_type-Succeeds (IdentityOp.get_identity_card id format) r (fs, e, h) = record {
  fs = fs;
  status = _;
  is_object = e;
  has_status = h.0;
  no_error = refl;
}
result_type-Succeeds IdentityOp.list_all_identities r (fs, e, h) = record {
  fs = fs;
  status = _;
  is_object = e;
  has_status = h.0;
  no_error = refl;
}
result_type-Succeeds IdentityOp.get_stats r (fs, e, h) = record {
  fs = fs;
  status = _;
  is_object = e;
  has_status = h.0;
  no_error = refl;
}

module _ (encode_uri : String → String) (p : Platform) (program_id : String) where
  -- A method sends a request that the program accepts and that has the declared type; and a reply of
  -- the type that the method promises is returned, not thrown.
  pub perform-IsAccepted :
      (op : IdentityOp) (r : Value) (s s' : Session)
      → run_program encode_uri p program_id (op_value op) s ≡ (ok r, s')
      → Has (result_type op) r
      → IsVariant "op" identity_requests (op_value op)
        × Has (request_type op) (op_value op)
        × (perform encode_uri p program_id op s ≡ (ok r, s'))
  unfolding perform execute_program
  perform-IsAccepted op r s s' e h =
      let (accepted, typed) = op_value-IsAccepted op in
      let good = result_type-Succeeds op r h in
      (accepted, typed, rw (e, good.is_object, good.has_status, good.no_error) refl)
