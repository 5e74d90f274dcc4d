-- ===== src/Nbook/Pages/Profile/Loading.antt =====
-- The effect of the profile page that loads the profile and the posts of its user.
use onvm.Base.{◌≡◌, refl, String, true, false, List, [], ◌∷◌, if◌then◌else◌, Bool-cases, inl, inr}
use onvm.Nbook.Api.{get_profile, get_post}
use onvm.Nbook.Pages.{Page, call, set, attempt}
use onvm.Nbook.Pages.Attempt.{attempt_ok}
use onvm.Nbook.Pages.Profile.{Profile, summaries, items_or_empty, includes}
use onvm.Js.Value.{Value, undefined, null, str, arr, Items, nil, cons, truthy, or_value, show_value}
use onvm.Js.Result.{ok, member}
use onvm.Js.Io.{Io, pure, lift, catch, ◌>>=◌, ◌>>◌}
use onvm.Js.Platform.{Platform}

-- `fetched.filter((p) => Boolean(p))`
abbrev present_posts : List Value → List Value
present_posts [] = []
present_posts (v ∷ vs) = let rest = present_posts vs in if truthy v then v ∷ rest else rest

abbrev stop_loading : Profile → Profile
stop_loading v = record v { loading = false }

module _ (p : Platform) (program_id : String) where
  -- A post that cannot be fetched is null.
  abbrev try_post : Value → Io (Page Profile) Value
  try_post id = catch (call (get_post p program_id (show_value id))) (λ e. pure null)

  abbrev fetch_posts : Items → Io (Page Profile) (List Value)
  fetch_posts nil = pure []
  fetch_posts (cons id ids) = do post ← try_post id; posts ← fetch_posts ids; pure (post ∷ posts)

  -- The fields that are set from the texts of the profile.
  abbrev fill_form : (display_name bio avatar banner : Value) → Profile → Profile
  fill_form display_name bio avatar banner v = record v {
    display_name = or_value display_name (str "");
    bio = or_value bio (str "");
    avatar_blob_id = or_value avatar undefined;
    banner_blob_id = or_value banner undefined;
  }

  -- `setIsFollowing` twice: the session's user is among the followers.
  abbrev mark_following : (followers : Items) → Profile → Profile
  mark_following followers v = record v {
    is_following = if truthy v.session_user then includes followers v.session_user else false;
  }

  -- The `try` block.
  abbrev load_request : (target : Value) → Io (Page Profile) (Unit {0})
  load_request target = do
    profile ← call (get_profile p program_id (show_value target))
    set (λ v. record v { profile = profile })
    display_name ← lift (member profile "displayName")
    bio ← lift (member profile "bio")
    avatar ← lift (member profile "avatarBlobId")
    banner ← lift (member profile "bannerBlobId")
    set (fill_form display_name bio avatar banner)
    follower_names ← lift (member profile "followerList")
    followers ← lift (items_or_empty follower_names)
    set (λ v. record v { follower_list = arr (summaries followers) })
    following_names ← lift (member profile "followingList")
    following ← lift (items_or_empty following_names)
    set (λ v. record v { following_list = arr (summaries following) })
    set (mark_following followers)
    post_ids ← lift (member profile "posts")
    ids ← lift (items_or_empty post_ids)
    posts ← fetch_posts ids
    set (λ v. record v { posts = present_posts posts })

  unfoldable load : (requested_user : Value) → Io (Page Profile) (Unit {0})
  load requested_user s =
      if s.view.hydrated
      then (if truthy (or_value requested_user s.view.session_user)
          then attempt "Failed to load profile" stop_loading
              (load_request (or_value requested_user s.view.session_user)) s
          else set stop_loading s)
      else pure tt s

  -- Every load ends, and the page no longer shows that it is loading, whatever the requests give.
  load_finishes :
      (requested_user : Value) (s : Page Profile)
      → s.view.hydrated ≡ true
      → ((load requested_user s).0 ≡ ok tt) × ((load requested_user s).1.view.loading ≡ false)
  unfolding load
  load_finishes u s ready = elim (Bool-cases (truthy (or_value u s.view.session_user))) [
    | inl some_user ↦
        simp (ready, some_user)
          (
            attempt_ok "Failed to load profile" stop_loading
                (load_request (or_value u s.view.session_user)) s,
            refl,
          )
    | inr no_user ↦ simp (ready, no_user) (refl, refl)
  ]
