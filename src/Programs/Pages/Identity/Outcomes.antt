-- ===== src/Programs/Pages/Identity/Outcomes.antt =====
-- How the requests of the identity page end.
use onvm.Base.{◌≡◌, refl, String, false, none, some}
use onvm.Sdk.Client.{Session}
use onvm.Programs.Identity.{IdentityOp, perform}
use onvm.Programs.Pages.{Page, call, set}
use onvm.Programs.Pages.Identity.{
  Form, Gallery, start_form, stop_form, fail_form, error_text, attempt, register_op, handle_submit,
  load_identity_card, select, stop_card, fail_card, show_card,
}
use onvm.Js.Value.{Value, null, show_value}
use onvm.Js.Result
use onvm.Js.Result.{Result, ok, throw, member}
use onvm.Js.Io.{lift, ◌>>=◌}
use onvm.Js.Platform.{Platform}

-- The form after its request: the reply is shown, or the error, never both.
abbrev submitted : Page Form → Result Value × Session → Page Form
submitted s (ok response, b) = record s {
  session = b;
  view = record s.view { loading = false; result = response; error = none };
}
submitted s (throw e, b) = record s {
  session = b;
  view = record s.view {
    loading = false;
    result = null;
    error = some (error_text e "Failed to register identity");
  };
}

submitted_reply :
    (s : Page Form) (r : Result Value × Session)
    → attempt fail_form stop_form
        (call (λ b. r) >>= λ response. set (λ v. record v { result = response }))
        (record s { view = start_form s.view })
      ≡ (ok tt, submitted s r)
submitted_reply s (ok response, b) = refl
submitted_reply s (throw e, b) = refl

module _ (encode_uri : String → String) (p : Platform) (program_id : String) where
  -- What an earlier request left is gone; the form itself stays.
  handle_submit_lem :
      (s : Page Form)
      → handle_submit encode_uri p program_id s
        ≡ (ok tt, submitted s (perform encode_uri p program_id (register_op s.view) s.session))
  unfolding handle_submit
  handle_submit_lem s =
      submitted_reply s (perform encode_uri p program_id (register_op s.view) s.session)

-- The gallery after the reply with a card: the card stands beside the identity that was chosen, or
-- none does.
abbrev pub carded : (svg : Result Value) → Gallery → Gallery
carded (ok svg) v = record v { identity_card_svg = svg; card_loading = false }
carded (throw e) v = record v { identity_card_svg = null; card_loading = false }

carded_svg :
    (svg : Result Value) (v : Gallery) (b : Session)
    → (attempt fail_card stop_card
        (lift svg >>= λ x. set (λ w. record w { identity_card_svg = x }))
        (record { session = b; view = v })).1.view
      ≡ carded svg v
carded_svg (ok svg) v b = refl
carded_svg (throw e) v b = refl

carded_reply :
    (r : Result Value × Session) (s : Page Gallery)
    → (attempt fail_card stop_card (call (λ b. r) >>= show_card) s).1.view
      ≡ carded (Result.◌>>=◌ r.0 (λ response. member response "card_svg")) s.view
carded_reply (ok response, b) s = carded_svg (member response "card_svg") s.view b
carded_reply (throw e, b) s = refl

module _ (encode_uri : String → String) (p : Platform) (program_id : String) where
  -- The reply to the request for the card of an identity.
  abbrev pub card_reply : (id : Value) → Session → Result Value × Session
  card_reply id b =
      perform encode_uri p program_id (IdentityOp.get_identity_card (show_value id) (some "svg")) b

  -- A click on an identity ends with that identity chosen, and its card or no card beside it.
  pub load_identity_card_lem :
      (identity id : Value) (s : Page Gallery)
      → member identity "id" ≡ ok id
      → (load_identity_card encode_uri p program_id identity s).1.view
        ≡ carded
            (Result.◌>>=◌ (card_reply id s.session).0 (λ response. member response "card_svg"))
            (select identity s.view)
  unfolding load_identity_card
  load_identity_card_lem identity id s read =
      rw read (carded_reply (card_reply id s.session) (record s { view = select identity s.view }))
