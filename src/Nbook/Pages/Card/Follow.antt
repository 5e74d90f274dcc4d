-- ===== src/Nbook/Pages/Card/Follow.antt =====
-- Whom the user follows: the set that the cards share, and the button of one card.
use text.Mathlib.TextEquality.{eq_iff}
use mathlib.Core.Path.{subst}
use onvm.Base.Texts.{concat}
use onvm.Base.{
  ◌≡◌, refl, ap, ◌∙◌, String, false, true, not, Bool, some, List, [], ◌∷◌, inl, inr, Bool-cases,
  if◌then◌else◌,
}
use onvm.Nbook.Client.{Browser}
use onvm.Nbook.Api.{follow_user, unfollow_user}
use onvm.Nbook.Pages.{Page, Toast, failure, notice}
use onvm.Nbook.Pages.Attempt.{attempt-then, concluded}
use onvm.Nbook.Pages.Card.{handle_follow_toggle, load_follow_state, followed, unfollowed}
use onvm.Nbook.Pages.Card.State.{Card, has, add, delete, cannot_follow, stop_follow, start_follow}
use onvm.Js.Value.{Value, str, same, peek, show_value, undefined, null, bool, num, arr, obj}
use onvm.Js.Result.{Result, ok, throw}
use onvm.Js.Platform.{Platform}
use text.Mathlib.Text.{◌==◌}

same-str : (s t : String) → same (str s) (str t) ≡ (s == t)
same-str s t = refl

-- After `delete` the set lacks the name.
has-delete_same : (ws : List Value) (v : Value) → has (delete ws v) v ≡ false
has-delete_same [] v = refl
has-delete_same (w ∷ ws) v = elim (Bool-cases (same w v)) [
  | inl e ↦ rw e (has-delete_same ws v)
  | inr e ↦ rw (e, e) (has-delete_same ws v)
]

has-add_same : (ws : List Value) (t : String) → has (add ws (str t)) (str t) ≡ true
has-add_same ws t = elim (Bool-cases (has ws (str t))) [
  | inl e ↦ rw (e, e) refl
  | inr e ↦ rw (e, (eq_iff t t).1 refl) refl
]

-- Two names that are the same value are the same text.
same_text : (w : Value) (t u : String) → same w (str t) ≡ true → same w (str u) ≡ (t == u)
same_text (str s) t u h = rw ((eq_iff s t).0 h) refl
same_text undefined t u h = cc
same_text null t u h = cc
same_text (bool b) t u h = cc
same_text (num n) t u h = cc
same_text (arr vs) t u h = cc
same_text (obj fs) t u h = cc

-- The name `u` is another one than `t`: its membership does not change.
has-delete_other :
    (ws : List Value) (t u : String)
    → (t == u) ≡ false
    → has (delete ws (str t)) (str u) ≡ has ws (str u)
has-delete_other [] t u h = refl
has-delete_other (w ∷ ws) t u h = elim (Bool-cases (same w (str t))) [
  | inl e ↦ rw (e, same_text w t u e, h) (has-delete_other ws t u h)
  | inr e ↦ rw e (ap (λ b. if same w (str u) then true else b) (has-delete_other ws t u h))
]

has-add_other :
    (ws : List Value) (t u : String)
    → (t == u) ≡ false
    → has (add ws (str t)) (str u) ≡ has ws (str u)
has-add_other ws t u h = elim (Bool-cases (has ws (str t))) [
  | inl e ↦ rw e refl
  | inr e ↦ rw (e, h) refl
]

-- The shared set after the button of a card whose author is named `t`.
abbrev toggled : (following : Bool) → List Value → String → List Value
toggled true names t = delete names (str t)
toggled false names t = add names (str t)

-- After the button the set has the author just if it was not followed, and every other name as before.
has-toggled :
    (following : Bool) (names : List Value) (t u : String)
    → has (toggled following names t) (str u)
      ≡ (if t == u then not following else has names (str u))
has-toggled b names t u = elim (Bool-cases (t == u)) [
  | inl e ↦ rw e (subst (λ v. has (toggled b names t) (str v) ≡ not b) ((eq_iff t u).0 e) (here b))
  | inr e ↦ rw e (other b e)
]
  where
    here : (b : Bool) → has (toggled b names t) (str t) ≡ not b
    here true = has-delete_same names (str t)
    here false = has-add_same names t

    other : (b : Bool) → (t == u) ≡ false → has (toggled b names t) (str u) ≡ has names (str u)
    other true = has-delete_other names t u
    other false = has-add_other names t u

-- A card that shows whether its author is followed, and the set that it shares.
abbrev pub showing : (following : Bool) → List Value → Page Card → Page Card
showing following names s = record s {
  view = record s.view { is_following_author = some following; cached_following = some names };
}

module _ (p : Platform) (program_id : String) (s : Page Card) where
  -- The request of the button.
  abbrev pub follow_reply : (following : Bool) → String → Result Value × Browser
  follow_reply true t = unfollow_user p program_id t s.browser
  follow_reply false t = follow_user p program_id t s.browser

  abbrev follow_notice : (following : Bool) → String → Toast
  follow_notice true t = notice (concat ("Unfollowed " ∷ t ∷ []))
  follow_notice false t = notice (concat ("Following " ∷ t ∷ []))

  -- The page after the button, by the reply.
  abbrev pub after_toggle :
      (following : Bool) → List Value → String → Result Value × Browser → Page Card
  after_toggle following names t (ok v, b) = record s {
    browser = b;
    view = record s.view {
      is_following_author = some (not following);
      cached_following = some (toggled following names t);
      follow_busy = false;
    };
    toasts = follow_notice following t ∷ s.toasts;
  }
  after_toggle following names t (throw e, b) = record s {
    browser = b;
    view = record s.view {
      is_following_author = some following;
      cached_following = some names;
      follow_busy = false;
    };
    toasts = failure "Follow action failed" e ∷ s.toasts;
  }

  unfollowed_reply :
      (names : List Value) (t : String) (r : Result Value × Browser)
      → concluded "Follow action failed" stop_follow
          (λ v t'. (unfollowed (str t) t').1)
          (record (showing true names s) { view = start_follow (showing true names s).view })
          r
        ≡ after_toggle true names t r
  unfolding show_value
  unfollowed_reply names t (ok v, b) = refl
  unfollowed_reply names t (throw e, b) = refl

  followed_reply :
      (names : List Value) (t : String) (r : Result Value × Browser)
      → concluded "Follow action failed" stop_follow
          (λ v t'. (followed (str t) t').1)
          (record (showing false names s) { view = start_follow (showing false names s).view })
          r
        ≡ after_toggle false names t r
  unfolding show_value
  followed_reply names t (ok v, b) = refl
  followed_reply names t (throw e, b) = refl

  -- If the set of followed users is known, the button of a card by another author calls `followUser` or
  -- `unfollowUser` for this author: if the call succeeds, the flag is turned and the set changed, and if
  -- it throws, because there is no session or for any other reason, both stay and a message is shown.
  pub handle_follow_toggle_lem :
      (current_user : Value) (following : Bool) (names : List Value) (t : String)
      → peek s.view.local_post "author" ≡ str t
      → cannot_follow current_user s.view.local_post ≡ false
      → handle_follow_toggle p program_id current_user (showing following names s)
        ≡ (ok tt, after_toggle following names t (follow_reply following t))
  unfolding handle_follow_toggle show_value
  handle_follow_toggle_lem u true names t author may =
      rw (may, author)
        (attempt-then "Follow action failed" stop_follow (unfollow_user p program_id t)
            (λ v. unfollowed (str t)) (λ v t'. (unfollowed (str t) t').1)
            (record (showing true names s) { view = start_follow (showing true names s).view })
            (λ v t'. refl)
          ∙ ap (λ q. (ok tt, q))
              (unfollowed_reply names t (unfollow_user p program_id t s.browser)))
  handle_follow_toggle_lem u false names t author may =
      rw (may, author)
        (attempt-then "Follow action failed" stop_follow (follow_user p program_id t)
            (λ v. followed (str t)) (λ v t'. (followed (str t) t').1)
            (record (showing false names s) { view = start_follow (showing false names s).view })
            (λ v t'. refl)
          ∙ ap (λ q. (ok tt, q)) (followed_reply names t (follow_user p program_id t s.browser)))

  -- Once the set is known, every card reads it whoever is logged in, and nothing is sent.
  pub load_follow_state_cached :
      (current_user : Value) (following : Bool) (names : List Value)
      → cannot_follow current_user s.view.local_post ≡ false
      → load_follow_state p program_id current_user (showing following names s)
        ≡ (ok tt, showing (has names (peek s.view.local_post "author")) names s)
  unfolding load_follow_state
  load_follow_state_cached u b names may = rw may refl
