-- ===== src/Programs/Pages/Identity/Overtaking.antt =====
-- The gallery of the identity page (wasm_programs/identity_card/ui/components/identity-gallery.tsx)
-- while requests for cards are on their way: a click on an identity does not cancel the request of
-- an earlier click.
use onvm.Base.{◌≡◌, ◌≢◌, refl, ap, false, String, List, [], ◌∷◌, ◌++◌}
use onvm.Programs.Pages.{Page}
use onvm.Programs.Pages.Identity.{Gallery, select, load_identity_card}
use onvm.Programs.Pages.Identity.Outcomes.{carded, card_reply, load_identity_card_lem}
use onvm.Js.Value.{Value, null}
use onvm.Js.Result
use onvm.Js.Result.{Result, ok, throw, member}
use onvm.Js.Platform.{Platform}

-- The gallery, the identity that was clicked last, or null if its dialog was closed since, with what the
-- request of the last click gives, and what the requests give that have no reply yet, the one of the last
-- click first.
pub record Browsing : Type 0 where
  pub view : Gallery
  pub chosen : Value
  pub card : Result Value
  pub waiting : List (Result Value)

abbrev pub click : (identity : Value) (card : Result Value) → Browsing → Browsing
click identity card b = record {
  view = select identity b.view;
  chosen = identity;
  card = card;
  waiting = card ∷ b.waiting;
}

abbrev close_dialog : Gallery → Gallery
close_dialog v = record v { selected_identity = null }

abbrev pub close : Browsing → Browsing
close b = record b { view = close_dialog b.view; chosen = null }

-- `May older`: whether a reply can come while the requests `older`, which were sent before, wait.
pub data Step (May : (older : List (Result Value)) → Type 0) : Browsing → Browsing → Type 0 where
  clicked :
      {b : Browsing} (identity : Value) (card : Result Value) → Step May b (click identity card b)
  -- The dialog of an identity is closed.
  closed : {b : Browsing} → Step May b (close b)
  replied :
      {b : Browsing} (newer : List (Result Value)) (card : Result Value)
      (older : List (Result Value))
      → May older
      → b.waiting ≡ newer ++ (card ∷ older)
      → Step May b (record b { view = carded card b.view; waiting = newer ++ older })

pub data Reach (May : (older : List (Result Value)) → Type 0) (b : Browsing)
    : Browsing → Type 0 where
  here : Reach May b b
  later : {c d : Browsing} → Reach May b c → Step May c d → Reach May b d

-- The replies come in the order of the requests, or in any order.
abbrev pub InOrder : (older : List (Result Value)) → Type 0
InOrder older = older ≡ []

abbrev pub InAnyOrder : (older : List (Result Value)) → Type 0
InAnyOrder older = Unit {0}

-- The card that a reply shows.
abbrev pub svg_of : Result Value → Value
svg_of (ok svg) = svg
svg_of (throw e) = null

abbrev IsAnswered : (waiting : List (Result Value)) → (card : Result Value) → Gallery → Type 0
IsAnswered [] card v = (v.identity_card_svg ≡ svg_of card) × (v.card_loading ≡ false)
IsAnswered (r ∷ rs) card v = r ≡ card

-- The identity that was clicked last is chosen, or none after its dialog was closed; and when no reply is missing, the gallery shows what
-- its request gave and loads nothing.
abbrev pub IsCurrent : Browsing → Type 0
IsCurrent b = (b.view.selected_identity ≡ b.chosen) × IsAnswered b.waiting b.card b.view

carded-selected_identity :
    (r : Result Value) (v : Gallery) → (carded r v).selected_identity ≡ v.selected_identity
carded-selected_identity (ok svg) v = refl
carded-selected_identity (throw e) v = refl

carded-IsAnswered :
    (r card : Result Value) (v : Gallery) → r ≡ card → IsAnswered [] card (carded r v)
carded-IsAnswered (ok svg) card v e = (ap svg_of e, refl)
carded-IsAnswered (throw f) card v e = (ap svg_of e, refl)

-- The reply to the request that waits longest.
oldest-IsAnswered :
    (waiting newer older : List (Result Value)) (r card : Result Value) (v : Gallery)
    → older ≡ []
    → waiting ≡ newer ++ (r ∷ older)
    → IsAnswered waiting card v
    → IsAnswered (newer ++ older) card (carded r v)
oldest-IsAnswered waiting [] older r card v o w h = rw o (carded-IsAnswered r card v (rw w at h))
oldest-IsAnswered waiting (x ∷ newer) older r card v o w h = rw w at h

close_dialog-IsAnswered :
    (waiting : List (Result Value)) (card : Result Value) (v : Gallery)
    → IsAnswered waiting card v
    → IsAnswered waiting card (close_dialog v)
close_dialog-IsAnswered [] card v h = h
close_dialog-IsAnswered (r ∷ rs) card v h = h

Step-IsCurrent : {b c : Browsing} → Step InOrder b c → IsCurrent b → IsCurrent c
Step-IsCurrent (clicked identity card) (i, a) = (refl, refl)
Step-IsCurrent {b} closed (i, a) = (refl, close_dialog-IsAnswered b.waiting b.card b.view a)
Step-IsCurrent {b} (replied newer r older o w) (i, a) = (
  rw (carded-selected_identity r b.view) i,
  oldest-IsAnswered b.waiting newer older r b.card b.view o w a,
)

-- From a gallery of which this holds, such as one at rest: whatever is clicked and closed, if the replies
-- come in the order of the clicks, the gallery shows, whenever no reply is missing, the identity that was
-- clicked last, or none if its dialog was closed since, with the card of this identity, or with none if
-- its request failed.
pub Reach-IsCurrent : {b c : Browsing} → IsCurrent b → Reach InOrder b c → IsCurrent c
Reach-IsCurrent h here = h
Reach-IsCurrent h (later r s) = Step-IsCurrent s (Reach-IsCurrent h r)

-- The gallery after two clicks whose replies came in the other order.
abbrev pub overtaken : (first second x y : Value) → Browsing → Browsing
overtaken first second x y b =
    let c = click second (ok y) (click first (ok x) b) in
    record c { view = carded (ok x) (carded (ok y) c.view); waiting = [] }

-- From a gallery without requests, if the replies to two clicks come in the other order, the card of
-- the first identity stays beside the second, unless the two cards are the same.
pub overtaken-not-IsCurrent :
    (first second x y : Value) (b : Browsing)
    → b.waiting ≡ []
    → x ≢ y
    → let c = overtaken first second x y b in
      Reach InAnyOrder b c
      × (c.view.selected_identity ≡ second)
      × (c.view.identity_card_svg ≡ x)
      × ¬ IsCurrent c
overtaken-not-IsCurrent first second x y b idle differ = (
  later
      (later (later (later here (clicked first (ok x))) (clicked second (ok y)))
        (replied [] (ok y) (ok x ∷ b.waiting) tt refl))
      (replied [] (ok x) [] tt (ap (λ w. ok x ∷ w) idle)),
  refl,
  refl,
  λ h. differ h.1.0,
)

click_then_reply :
    (b : Browsing) (identity : Value) (r : Result Value)
    → b.waiting ≡ []
    → Reach InOrder b (record {
      view = carded r (select identity b.view);
      chosen = identity;
      card = r;
      waiting = [];
    })
click_then_reply b identity r idle =
    later (later here (clicked identity r)) (replied [] r [] refl (ap (λ w. r ∷ w) idle))

module _ (encode_uri : String → String) (p : Platform) (program_id : String) where
  -- `loadIdentityCard` is a click and its reply, one after the other.
  load_identity_card-Reach :
      (b : Browsing) (identity id : Value) (s : Page Gallery)
      → member identity "id" ≡ ok id
      → b.waiting ≡ []
      → b.view ≡ s.view
      → let r =
          Result.◌>>=◌
            (card_reply encode_uri p program_id id s.session).0
            (λ response. member response "card_svg") in
        Reach InOrder b (record {
          view = (load_identity_card encode_uri p program_id identity s).1.view;
          chosen = identity;
          card = r;
          waiting = [];
        })
  load_identity_card-Reach b identity id s read idle e =
      let r =
        Result.◌>>=◌ (card_reply encode_uri p program_id id s.session).0
          (λ response. member response "card_svg") in
      rw (load_identity_card_lem encode_uri p program_id identity id s read, ← e)
        (click_then_reply b identity r idle)
