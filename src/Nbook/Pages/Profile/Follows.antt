-- ===== src/Nbook/Pages/Profile/Follows.antt =====
-- The follow button of the profile page, and the followers that the page shows.
use onvm.Base.{◌≡◌, refl, sym, String, Bool, true, false, Bool-cases, inl, inr}
use mathlib.Core.Path.{subst}
use text.Mathlib.TextEquality.{eq_iff}
use onvm.Nbook.Client.{Browser}
use onvm.Nbook.Api.{follow_user, unfollow_user}
use onvm.Nbook.Pages.{Page, attempt}
use onvm.Nbook.Pages.Attempt.{attempt-then, concluded}
use onvm.Nbook.Pages.Profile.{
  Profile, includes, filter_out, append, add_once, fields_with, fields_without, with_follower,
  without_follower,
}
use onvm.Nbook.Pages.Profile.Handlers.{
  toggle_with, toggle_follow, change_follow, followed, unfollowed, start_follow, stop_follow,
}
use onvm.Js.Value.{
  Value, str, arr, obj, Fields, field_of, Items, nil, cons, truthy, same, show_value,
}
use onvm.Js.Result.{Result, ok, throw}
use onvm.Js.Platform.{Platform}

includes-filter_out : (ws : Items) (v : Value) → includes (filter_out ws v) v ≡ false
includes-filter_out nil v = refl
includes-filter_out (cons w ws) v = elim (Bool-cases (same w v)) [
  | inl e ↦ rw e (includes-filter_out ws v)
  | inr e ↦ rw (e, e) (includes-filter_out ws v)
]

includes-append : (ws : Items) (t : String) → includes (append ws (str t)) (str t) ≡ true
includes-append nil t = rw ((eq_iff t t).1 refl) refl
includes-append (cons w ws) t = elim (Bool-cases (same w (str t))) [
  | inl e ↦ rw e refl
  | inr e ↦ rw e (includes-append ws t)
]

-- The followers of a profile, none where it has no list.
abbrev followers_of : Value → Items
followers_of (arr us) = us
followers_of v = nil

-- The page shows a profile with a list of followers, and the button says whether the user `me` is
-- one of them.
pub record IsConsistent (me : String) (v : Profile) : Type 0 where
  pub user : v.session_user ≡ str me
  pub fields : Fields
  pub shown : v.profile ≡ obj fields
  pub names : Items
  pub listed : field_of fields "followerList" ≡ arr names
  pub agrees : v.is_following ≡ includes names (str me)

includes-add_once : (ws : Items) (t : String) → includes (add_once (str t) ws) (str t) ≡ true
includes-add_once ws t = elim (Bool-cases (includes ws (str t))) [
  | inl e ↦ rw (e, e) refl
  | inr e ↦ rw e (includes-append ws t)
]

module _ (me : String) (v : Profile) (h : IsConsistent me v) where
  unfollowed-IsConsistent : IsConsistent me (record v {
    is_following = false;
    profile = without_follower (str me) v.profile;
    follow_busy = false;
  })
  unfollowed-IsConsistent = record {
    user = h.user;
    fields = fields_without (str me) h.fields;
    shown = rw h.shown refl;
    names = filter_out h.names (str me);
    listed = rw h.listed refl;
    agrees = sym (includes-filter_out h.names (str me));
  }

  followed-IsConsistent : IsConsistent me (record v {
    is_following = true;
    profile = with_follower (str me) v.profile;
    follow_busy = false;
  })
  followed-IsConsistent = record {
    user = h.user;
    fields = fields_with (str me) h.fields;
    shown = rw h.shown refl;
    names = add_once (str me) h.names;
    listed = rw h.listed refl;
    agrees = sym (includes-add_once h.names me);
  }

  stopped-IsConsistent : IsConsistent me (record v { follow_busy = false })
  stopped-IsConsistent = record {
    user = h.user;
    fields = h.fields;
    shown = h.shown;
    names = h.names;
    listed = h.listed;
    agrees = h.agrees;
  }

module _ (me : String) (s : Page Profile) (h : IsConsistent me s.view) where
  -- The page after the request of the button, by its reply.
  concluded-IsConsistent :
      (k : Value → Page Profile → Page Profile) (r : Result Value × Browser)
      → ((a : Value) (b : Browser)
          → IsConsistent me
              (stop_follow (k a (record s { view = start_follow s.view; browser = b })).view))
      → IsConsistent me
          (concluded "Follow action failed" stop_follow k
            (record s { view = start_follow s.view })
            r).view
  concluded-IsConsistent k (ok a, b) c = c a b
  concluded-IsConsistent k (throw e, b) c = stopped-IsConsistent me s.view h

  module _ (p : Platform) (program_id : String) where
    change_follow-IsConsistent :
        (following : Bool) (name : Value)
        → IsConsistent me
            (attempt "Follow action failed" stop_follow
              (change_follow p program_id following (str me) name)
              (record s { view = start_follow s.view })).1.view
    change_follow-IsConsistent true name =
        subst (λ r. IsConsistent me r.1.view)
          (sym (
            attempt-then "Follow action failed" stop_follow
              (unfollow_user p program_id (show_value name)) (λ v. unfollowed (str me) name)
              (λ v t. (unfollowed (str me) name t).1) (record s { view = start_follow s.view })
              (λ v t. refl)))
          (concluded-IsConsistent (λ v t. (unfollowed (str me) name t).1) _
            (λ a b. unfollowed-IsConsistent me s.view h))
    change_follow-IsConsistent false name =
        subst (λ r. IsConsistent me r.1.view)
          (sym (
            attempt-then "Follow action failed" stop_follow
              (follow_user p program_id (show_value name)) (λ v. followed (str me) name)
              (λ v t. (followed (str me) name t).1) (record s { view = start_follow s.view })
              (λ v t. refl)))
          (concluded-IsConsistent (λ v t. (followed (str me) name t).1) _
            (λ a b. followed-IsConsistent me s.view h))

    toggle_with-IsConsistent :
        (user profile : Value) (fs : Fields) (following : Bool)
        → user ≡ str me
        → profile ≡ obj fs
        → IsConsistent me (toggle_with p program_id user profile following s).1.view
    toggle_with-IsConsistent user profile fs following a b =
        rw (a, b)
          (elim (Bool-cases (truthy (str me))) [
            | inl in_session ↦
                rw in_session (change_follow-IsConsistent following (field_of fs "username"))
            | inr nobody ↦ rw nobody h
          ])

    -- The button keeps the page consistent, whether its request succeeds or not: after it, the flag
    -- still says whether the user is among the followers that are shown.
    pub toggle_follow-IsConsistent : IsConsistent me (toggle_follow p program_id s).1.view
    unfolding toggle_follow
    toggle_follow-IsConsistent =
        toggle_with-IsConsistent s.view.session_user s.view.profile h.fields s.view.is_following
          h.user h.shown
