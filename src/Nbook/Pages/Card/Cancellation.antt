-- ===== src/Nbook/Pages/Card/Cancellation.antt =====
-- Requests of the effect `loadFollowState` that are overtaken by another post or another user.
use onvm.Base.{
  ◌≡◌, refl, ◌∙◌, Bool, true, false, String, List, some, ◌⊎◌, inl, inr, if◌then◌else◌, Bool-cases,
}
use onvm.Nbook.Pages.{Page, set}
use onvm.Nbook.Pages.Effects.{
  Run, Mounted, Removes, Removes-AreCurrent, AreCurrent, Reach, Reach-AreCurrent,
}
use onvm.Nbook.Pages.Card.{get_following_set, load_follow_state}
use onvm.Nbook.Pages.Card.State.{Card, cannot_follow, has}
use onvm.Js.Value.{Value, peek}
use onvm.Js.Result.{Result, ok, throw}
use onvm.Js.Io.{catch, ◌>>=◌}
use onvm.Js.Platform.{Platform}

-- The user who is logged in, and the card.
abbrev pub Shown : Type 0
Shown = Value × Card

-- The dependencies of the effect, `[currentUser, localPost?.author]`.
abbrev pub follow_deps : Shown → Value × Value
follow_deps (user, c) = (user, peek c.local_post "author")

-- What the effect does at once, and whether it goes on to ask for the followed users.
abbrev pub begin_follow : Value × Value → Shown → Bool × Shown
begin_follow d (user, c) =
    if cannot_follow user c.local_post
    then (false, (user, record c { is_following_author = some false }))
    else (true, (user, c))

abbrev put_answer : (author : Value) → Result (List Value) → Card → Card
put_answer author (ok names) c = record c { is_following_author = some (has names author) }
put_answer author (throw e) c = record c { is_following_author = some false }

-- What it does with the reply.
pub finish_follow : (cancelled : Bool) → Value × Value → Result (List Value) → Shown → Shown
finish_follow cancelled d a (user, c) = if cancelled then (user, c) else (user, put_answer d.1 a c)

-- The card shows the answer for the author that its post has now.
abbrev pub answered : Result (List Value) → Shown → Shown
answered (ok names) (user, c) =
    (user, record c { is_following_author = some (has names (peek c.local_post "author")) })
answered (throw e) (user, c) = (user, record c { is_following_author = some false })

finish_cancelled :
    (b : Bool) (d : Value × Value) (a : Result (List Value)) (v : Shown)
    → b ≡ true
    → finish_follow b d a v ≡ v
unfolding finish_follow
finish_cancelled b d a (user, c) e = rw e refl

finish_current :
    (b : Bool) (d : Value × Value) (a : Result (List Value)) (v : Shown)
    → d ≡ follow_deps v
    → (finish_follow b d a v ≡ v) ⊎ (finish_follow b d a v ≡ answered a v)
unfolding finish_follow
finish_current true d a (user, c) e = inl refl
finish_current false d (ok names) (user, c) e = inr (rw e refl)
finish_current false d (throw x) (user, c) e = inr refl

-- From a card whose requests are cancelled or for what it was last rendered with, whatever the posts
-- and users that it is then shown with, and in whatever order the replies come: a reply to a card that
-- was rendered since it last changed leaves it as it is, or shows the answer for the author of the
-- post that it has now.
pub finish_follow-answered :
    {m n : Mounted (Value × Value) Shown} {r : Run (Value × Value)}
    {rest : List (Run (Value × Value))}
    → AreCurrent m.deps m.runs
    → Reach follow_deps begin_follow finish_follow m n
    → Removes r n.runs rest
    → n.deps ≡ follow_deps n.view
    → (a : Result (List Value))
    → (finish_follow r.cancelled r.deps a n.view ≡ n.view)
      ⊎ (finish_follow r.cancelled r.deps a n.view ≡ answered a n.view)
finish_follow-answered {n} {r} h reach q fresh a =
    elim (Removes-AreCurrent q
      (Reach-AreCurrent follow_deps begin_follow finish_follow h reach)).0 [
        | inl e ↦ inl (finish_cancelled r.cancelled r.deps a n.view e)
        | inr e ↦ finish_current r.cancelled r.deps a n.view (e ∙ fresh)
      ]

module _ (p : Platform) (program_id : String) where
  abbrev with_view : Page Card → Card → Page Card
  with_view s c = record s { view = c }

  -- A run that nothing overtakes.
  abbrev follow_run : (user : Value) → Page Card → Bool × Shown → Page Card
  follow_run user s (false, (u, c)) = with_view s c
  follow_run user s (true, v) =
      with_view (get_following_set p program_id user s).1
        (finish_follow false (follow_deps (user, s.view)) (get_following_set p program_id user s).0
          (user, (get_following_set p program_id user s).1.view)).1

  by_answer :
      (author : Value) (r : Result (List Value) × Page Card) (s : Page Card)
      → catch
          ((λ t. r) >>= λ names.
            set (λ c. record c { is_following_author = some (has names author) }))
          (λ e. set (λ c. record c { is_following_author = some false }))
          s
        ≡ (ok tt, with_view r.1 (put_answer author r.0 r.1.view))
  by_answer author (ok names, t) s = refl
  by_answer author (throw e, t) s = refl

  -- `load_follow_state` is the effect when nothing comes between its request and the reply.
  load_follow_state_lem :
      (user : Value) (s : Page Card)
      → load_follow_state p program_id user s
        ≡ (ok tt, follow_run user s (begin_follow (follow_deps (user, s.view)) (user, s.view)))
  unfolding load_follow_state finish_follow
  load_follow_state_lem user s = elim (Bool-cases (cannot_follow user s.view.local_post)) [
    | inl e ↦ rw e refl
    | inr e ↦
        rw e (by_answer (peek s.view.local_post "author") (get_following_set p program_id user s) s)
  ]
