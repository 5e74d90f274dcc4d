-- ===== src/Tests/Gallery.antt =====
-- The theorems on the gallery of identities, at concrete inputs.
use onvm.Base.{◌≡◌, refl, ap, true, false, none, [], ◌∷◌}
use onvm.Programs.Pages.Identity.{Gallery}
use onvm.Programs.Pages.Identity.Overtaking.{
  Browsing, Step, Reach, InOrder, InAnyOrder, IsCurrent, Reach-IsCurrent, overtaken,
  overtaken-not-IsCurrent,
}
use onvm.Js.Value.{Value, null, str, is_text}
use onvm.Js.Result.{ok, throw}
use onvm.Sdk.Errors.{builtin}

abbrev gallery : Gallery
gallery = record {
  identities = null;
  loading = false;
  error = none;
  selected_identity = null;
  identity_card_svg = null;
  card_loading = false;
}

abbrev opened : Browsing
opened = record { view = gallery; chosen = null; card = ok null; waiting = [] }

abbrev ada : Value
ada = str "ada"

abbrev bob : Value
bob = str "bob"

-- Two clicks, whose replies come in their order.
abbrev answered : Browsing
answered = record {
  view = record gallery { selected_identity = bob; identity_card_svg = str "bob's card" };
  chosen = bob;
  card = ok (str "bob's card");
  waiting = [];
}

two_clicks : Reach InOrder opened answered
two_clicks =
    Reach.later
      (Reach.later
        (Reach.later (Reach.later Reach.here (Step.clicked ada (throw (builtin "Error" "gone"))))
          (Step.clicked bob (ok (str "bob's card"))))
        (Step.replied (ok (str "bob's card") ∷ []) (throw (builtin "Error" "gone")) [] refl refl))
      (Step.replied [] (ok (str "bob's card")) [] refl refl)

Reach-IsCurrent_example : IsCurrent answered
Reach-IsCurrent_example =
    Reach-IsCurrent {b = opened} {c = answered} (refl, (refl, refl)) two_clicks

overtaken-not-IsCurrent_example :
    let c = overtaken ada bob (str "ada's card") (str "bob's card") opened in
    Reach InAnyOrder opened c
    × (c.view.selected_identity ≡ bob)
    × (c.view.identity_card_svg ≡ str "ada's card")
    × ¬ IsCurrent c
overtaken-not-IsCurrent_example =
    overtaken-not-IsCurrent ada bob (str "ada's card") (str "bob's card") opened refl
      (λ h. let e : true ≡ false = ap (λ v. is_text v "ada's card") h in cc)
