-- ===== src/Nbook/Pages/Feed.antt =====
-- The feed (wasm_programs/nbook/ui/components/feed/feed-content.tsx).
use onvm.Base.{
  ◌≡◌, refl, String, Bool, true, false, not, ◌&&◌, Option, none, some, if◌then◌else◌, Bool-cases,
  inl, inr,
}
use onvm.Base.Texts.{present, or_text}
use onvm.Nbook.Client.{Browser}
use onvm.Nbook.Session.{get_session}
use onvm.Nbook.Api.{get_post, get_feed}
use onvm.Nbook.Pages.{Page, call, set, toast, failure, finally, attempt}
use onvm.Js.Value.{Value, arr, Items, nil, cons, peek, truthy}
use onvm.Js.Result.{Result, ok, throw}
use onvm.Js.Io.{Io, catch, ◌>>=◌, ◌>>◌}
use onvm.Js.Platform.{Platform}

pub data Tab : Type 0 where
  following discover : Tab

pub record Feed : Type 0 where
  pub active_tab : Tab
  pub posts : Value
  pub is_loading : Bool
  pub unauthenticated : Bool

abbrev is_discover : Tab → Bool
is_discover Tab.following = false
is_discover Tab.discover = true

-- The state of a feed that is first shown.
unfoldable new_feed : (fixed_discover : Bool) → (initial : Tab) → Feed
new_feed fixed_discover initial = record {
  active_tab = if fixed_discover then Tab.discover else initial;
  posts = arr nil;
  is_loading = true;
  unauthenticated = false;
}

abbrev stop_loading : Feed → Feed
stop_loading v = record v { is_loading = false }

abbrev start_loading : Feed → Feed
start_loading v = record v { is_loading = true; unauthenticated = false }

-- The button of the header.
unfoldable switch_tab : Feed → Feed
switch_tab v = record v {
  active_tab = if is_discover v.active_tab then Tab.following else Tab.discover;
}

-- What stands below the header.
data Screen : Type 0 where
  log_in loading no_posts : Screen
  list : (posts : Items) → Screen

abbrev screen_of_posts : Value → Screen
screen_of_posts (arr (cons v vs)) = Screen.list (cons v vs)
screen_of_posts v = Screen.no_posts

unfoldable screen_of : Feed → Screen
screen_of v =
    if v.unauthenticated
    then Screen.log_in
    else if v.is_loading
    then Screen.loading
    else screen_of_posts v.posts

-- `headerTitle`
unfoldable header_title : (title : Option String) → (fixed_discover : Bool) → String
header_title title fixed_discover = or_text title (if fixed_discover then "Discover" else "Home")

module _ (p : Platform) (program_id : String) where
  -- A post that the address names is shown alone, or nothing.
  abbrev load_post : (id : String) → Io (Page Feed) (Unit {0})
  load_post id =
      set start_loading
      >> finally
          (catch
            (call (get_post p program_id id) >>= λ post.
              set (λ v. record v { posts = arr (if truthy post then cons post nil else nil) }))
            (λ e.
              toast (failure "Failed to load post" e) >> set (λ v. record v { posts = arr nil })))
          stop_loading

  abbrev load_tab : Io (Page Feed) (Unit {0})
  load_tab s =
      (set start_loading
          >> attempt "Failed to load feed" stop_loading (
              call (get_feed p program_id 20 (is_discover s.view.active_tab)) >>= λ posts.
              set (λ v. record v { posts = posts })))
        s

  abbrev load_session : (user : Value) → Io (Page Feed) (Unit {0})
  load_session user =
      if truthy (peek user "session")
      then load_tab
      else set (λ v. record v { unauthenticated = true; is_loading = false })

  abbrev load_focused : Option String → Io (Page Feed) (Unit {0})
  load_focused (some id) = load_post id
  load_focused none = call (get_session p program_id) >>= load_session

  -- `loadFeed`; `focused` is the post that the address names.
  pub load_feed : (focused : Option String) → Io (Page Feed) (Unit {0})
  load_feed focused = load_focused (present focused)

  -- The effect of the component.
  unfoldable show_feed :
      (fixed_discover : Bool) (focused : Option String) → Io (Page Feed) (Unit {0})
  show_feed fixed_discover focused s =
      if fixed_discover && not (is_discover s.view.active_tab)
      then set (λ v. record v { active_tab = Tab.discover }) s
      else load_feed focused s

  -- A load has ended: it returns, and the page knows whether it may show the feed.
  abbrev pub IsEnded : (unauthenticated : Bool) → Result (Unit {0}) × Page Feed → Type 0
  IsEnded unauthenticated r =
      (r.0 ≡ ok tt) × (r.1.view.is_loading ≡ false) × (r.1.view.unauthenticated ≡ unauthenticated)

  after_post-IsEnded :
      (r : Result Value × Browser) (s : Page Feed)
      → IsEnded false (
          finally
            (catch
              (call (λ b. r) >>= λ post.
                set (λ v. record v { posts = arr (if truthy post then cons post nil else nil) }))
              (λ e.
                toast (failure "Failed to load post" e) >> set (λ v. record v { posts = arr nil })))
            stop_loading
            (record s { view = start_loading s.view }))
  after_post-IsEnded (ok post, b) s = (refl, refl, refl)
  after_post-IsEnded (throw e, b) s = (refl, refl, refl)

  after_tab-IsEnded :
      (r : Result Value × Browser) (s : Page Feed)
      → IsEnded false (
          attempt "Failed to load feed" stop_loading
            (call (λ b. r) >>= λ posts. set (λ v. record v { posts = posts }))
            (record s { view = start_loading s.view }))
  after_tab-IsEnded (ok posts, b) s = (refl, refl, refl)
  after_tab-IsEnded (throw e, b) s = (refl, refl, refl)

  load_session-IsEnded :
      (user : Value) (s : Page Feed)
      → IsEnded (not (truthy (peek user "session"))) (load_session user s)
  load_session-IsEnded user s = elim (Bool-cases (truthy (peek user "session"))) [
    | inl in_session ↦
        rw in_session
          (after_tab-IsEnded (get_feed p program_id 20 (is_discover s.view.active_tab) s.browser) s)
    | inr nobody ↦ rw nobody (refl, refl, refl)
  ]

  -- What a load of the whole feed shows to a user without a session.
  abbrev pub asks_login : (focused : Option String) → (user : Value) → Bool
  asks_login (some id) user = false
  asks_login none user = not (truthy (peek user "session"))

  load_focused-IsEnded :
      (focused : Option String) (user : Value) (s : Page Feed)
      → (get_session p program_id s.browser).0 ≡ ok user
      → IsEnded (asks_login focused user) (load_focused focused s)
  load_focused-IsEnded (some id) user s read =
      after_post-IsEnded (get_post p program_id id s.browser) s
  load_focused-IsEnded none user s read =
      rw read
        (load_session-IsEnded user (record s { browser = (get_session p program_id s.browser).1 }))

  -- If the session can be read, every load of the feed ends; the page asks for a login just when
  -- there is no session and the address names no post.
  pub load_feed-IsEnded :
      (focused : Option String) (user : Value) (s : Page Feed)
      → (get_session p program_id s.browser).0 ≡ ok user
      → IsEnded (asks_login (present focused) user) (load_feed focused s)
  unfolding load_feed
  load_feed-IsEnded focused user s read = load_focused-IsEnded (present focused) user s read
