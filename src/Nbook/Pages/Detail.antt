-- ===== src/Nbook/Pages/Detail.antt =====
-- The page of one post (wasm_programs/nbook/ui/components/post/post-detail-content.tsx), which shows
-- constant data: its buttons change the page alone.
use onvm.Base.{◌≡◌, refl, ℕ, ◌+◌, ◌-◌, String, Bool, false, not, arith, if◌then◌else◌}

record Detail : Type 0 where
  pub liked : Bool
  pub like_count : ℕ
  pub bookmarked : Bool
  pub comment : String

abbrev new_detail : Detail
new_detail = record { liked = false; like_count = 234; bookmarked = false; comment = "" }

unfoldable handle_like : Detail → Detail
handle_like d = record d {
  liked = not d.liked;
  like_count = if d.liked then d.like_count - 1 else d.like_count + 1;
}

abbrev handle_comment : Detail → Detail
handle_comment d = record d { comment = "" }

abbrev toggle_bookmark : Detail → Detail
toggle_bookmark d = record d { bookmarked = not d.bookmarked }

-- The number of likes is that of the others, and one more if the user likes the post.
abbrev IsCounted : (others : ℕ) → Detail → Type 0
IsCounted others d = d.like_count ≡ others + (if d.liked then 1 else 0)

handle_like-IsCounted :
    (others : ℕ) (d : Detail) → IsCounted others d → IsCounted others (handle_like d)
unfolding handle_like
handle_like-IsCounted others d h = ground arith

-- A second click takes the first back.
handle_like_twice :
    (others : ℕ) (d : Detail)
    → IsCounted others d
    → ((handle_like (handle_like d)).like_count ≡ d.like_count)
      × ((handle_like (handle_like d)).liked ≡ d.liked)
unfolding handle_like
handle_like_twice others d h = ground arith

new_detail-IsCounted : IsCounted 234 new_detail
new_detail-IsCounted = refl
