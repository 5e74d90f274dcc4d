-- ===== src/Nbook/Pages/Card/Races.antt =====
-- A card while its requests are on their way: a click starts one, and the replies come in any order.
use onvm.Base.{
  Bool-cases, inl, inr, Option, some, none, sym, ◌∙◌, ℕ, suc, ◌≡◌, refl, ap, ◌≤◌, String, Bool,
  true, false, if◌then◌else◌, arith,
}
use mathlib.Core.Bool.{false≢true}
use onvm.Nbook.Client.{Browser}
use onvm.Nbook.Api.{like_post}
use onvm.Nbook.Pages.{Page}
use onvm.Nbook.Pages.Attempt.{settled}
use onvm.Nbook.Pages.Card.{handle_like}
use onvm.Nbook.Pages.Card.State.{
  Card, begin_like, can_comment, start_like, stop_like, start_comment, stop_comment,
}
use onvm.Nbook.Pages.Card.Keeping.{put_liked, put_commented}
use onvm.Nbook.Pages.Card.Handlers.{handle_like_lem}
use onvm.Js.Value.{Value, show_value}
use onvm.Js.Result.{Result, ok, throw, member}
use onvm.Js.Platform.{Platform}

-- The page and the numbers of requests that have no reply yet.
pub record Live : Type 0 where
  pub page : Page Card
  pub likes : ℕ
  pub comments : ℕ

abbrev with_view : (Card → Card) → Page Card → Page Card
with_view f s = record s { view = f s.view }

pub data Step : Live → Live → Type 0 where
  -- A click on the button that `handleLike` does not return from at once.
  click_like :
      {l : Live} (c : Card)
      → begin_like l.page.view ≡ some c
      → Step l (record l { page = with_view (λ v. c) l.page; likes = suc l.likes })
  like_reply :
      {l : Live} {n : ℕ} (r : Result Value × Browser)
      → l.likes ≡ suc n
      → Step l
          (record l { page = settled "Failed to like" stop_like put_liked l.page r; likes = n })
  -- A click on the button that sends a comment, while it can be clicked.
  click_comment :
      {l : Live}
      → can_comment l.page.view ≡ true
      → Step l (record l { page = with_view start_comment l.page; comments = suc l.comments })
  comment_reply :
      {l : Live} {n : ℕ} (r : Result Value × Browser)
      → l.comments ≡ suc n
      → Step l (record l {
        page = settled "Failed to comment" stop_comment put_commented l.page r;
        comments = n;
      })
  -- Everything else that happens on the page leaves the two flags.
  other :
      {l : Live} (page : Page Card)
      → page.view.is_liking ≡ l.page.view.is_liking
      → page.view.is_commenting ≡ l.page.view.is_commenting
      → Step l (record l { page = page })

pub data Reach (l : Live) : Live → Type 0 where
  here : Reach l l
  later : {m n : Live} → Reach l m → Step m n → Reach l n

abbrev number : Bool → ℕ
number b = if b then 1 else 0

-- The flags say how many requests are on their way.
abbrev pub IsCounted : Live → Type 0
IsCounted l =
    (l.likes ≡ number l.page.view.is_liking) × (l.comments ≡ number l.page.view.is_commenting)

number-le : (b : Bool) → number b ≤ 1
number-le true = omega arith
number-le false = omega arith

-- The reply to the only request.
last_one : (b : Bool) {k n : ℕ} → k ≡ suc n → k ≡ number b → n ≡ 0
last_one b h e = omega (arith, number-le b)

abbrev begun_or : Card → Option Card → Card
begun_or d none = d
begun_or d (some c) = c

abbrev is_begun : Option Card → Bool
is_begun none = false
is_begun (some c) = true

begin_like-counts :
    (l : Live) (c : Card)
    → begin_like l.page.view ≡ some c
    → l.likes ≡ number l.page.view.is_liking
    → l.comments ≡ number l.page.view.is_commenting
    → (suc l.likes ≡ number c.is_liking) × (l.comments ≡ number c.is_commenting)
begin_like-counts l c begun a b = elim (Bool-cases l.page.view.is_liking) [
  | inl busy ↦ absurd (false≢true (ap is_begun (rw busy at begun)))
  | inr idle ↦
      let same : start_like l.page.view ≡ c = ap (begun_or c) (rw idle at begun) in
      (
        rw (sym (ap (λ v. v.is_liking) same), a, idle) refl,
        b ∙ ap (λ v. number v.is_commenting) same,
      )
]

can_comment-counts :
    (l : Live)
    → can_comment l.page.view ≡ true
    → l.comments ≡ number l.page.view.is_commenting
    → suc l.comments ≡ 1
can_comment-counts l idle b = elim (Bool-cases l.page.view.is_commenting) [
  | inl busy ↦ absurd (false≢true (rw busy at idle))
  | inr free ↦ ap suc (b ∙ rw free refl)
]

Step-IsCounted : {l m : Live} → Step l m → IsCounted l → IsCounted m
Step-IsCounted {l} (click_like c begun) (a, b) = begin_like-counts l c begun a b
Step-IsCounted {l} (like_reply (ok post, w) h) (a, b) = (last_one l.page.view.is_liking h a, b)
Step-IsCounted {l} (like_reply (throw e, w) h) (a, b) = (last_one l.page.view.is_liking h a, b)
Step-IsCounted {l} (click_comment idle) (a, b) = (a, can_comment-counts l idle b)
Step-IsCounted {l} (comment_reply (ok post, w) h) (a, b) =
    (a, last_one l.page.view.is_commenting h b)
Step-IsCounted {l} (comment_reply (throw e, w) h) (a, b) =
    (a, last_one l.page.view.is_commenting h b)
Step-IsCounted (other page e f) (a, b) = (rw e a, rw f b)

-- Whatever the order of clicks and replies, there are as many requests without a reply as the flags
-- say, so at most one like and one comment.
pub Reach-IsCounted : {l m : Live} → IsCounted l → Reach l m → IsCounted m
Reach-IsCounted h here = h
Reach-IsCounted h (later r st) = Step-IsCounted st (Reach-IsCounted h r)

click_then_reply :
    (l : Live) (r : Result Value × Browser)
    → l.page.view.is_liking ≡ false
    → Reach l (record l { page = settled "Failed to like" stop_like put_liked l.page r })
click_then_reply l (ok post, w) idle =
    later (later here (click_like (start_like l.page.view) (rw idle refl)))
      (like_reply (ok post, w) refl)
click_then_reply l (throw e, w) idle =
    later (later here (click_like (start_like l.page.view) (rw idle refl)))
      (like_reply (throw e, w) refl)

module _ (p : Platform) (program_id : String) where
  -- `handleLike` is a click and its reply, one after the other.
  handle_like-Reach :
      (l : Live) (id : Value)
      → l.page.view.is_liking ≡ false
      → member l.page.view.local_post "id" ≡ ok id
      → Reach l (record l { page = (handle_like p program_id l.page).1 })
  handle_like-Reach l id idle read =
      rw (handle_like_lem p program_id l.page id idle read)
        (click_then_reply l (like_post p program_id (show_value id) l.page.browser) idle)
