-- ===== src/Nbook/Pages/Profile.antt =====
-- The profile page (wasm_programs/nbook/ui/components/profile/profile-content.tsx). Requests that
-- the page sends side by side are modelled one after the other.
pub mod Handlers
pub mod Follows
pub mod Loading
use onvm.Base.{
  ℕ, ◌+◌, ◌-◌, String, Bool, true, false, not, ◌||◌, ◌&&◌, Option, none, some, List, [], ◌∷◌,
  if◌then◌else◌,
}
use onvm.Sdk.Errors.{builtin}
use onvm.Nbook.Client.{Browser}
use onvm.Nbook.Session.{get_session}
use onvm.Nbook.Pages.{Page, call, set}
use onvm.Js.Value.{
  Value, undefined, null, num, str, arr, obj, Items, nil, cons, field, end, truthy, same, or_else,
  or_value, peek, Fields, field_of,
}
use onvm.Js.Result
use onvm.Js.Result.{Result, ok, throw, member}
use onvm.Js.Io.{Io, lift, ◌>>=◌}
use onvm.Js.Platform.{Platform}

pub data Modal : Type 0 where
  closed followers following : Modal

pub record Profile : Type 0 where
  pub profile : Value
  pub posts : List Value
  pub loading : Bool
  pub editing : Bool
  pub display_name : Value
  pub bio : Value
  pub avatar_blob_id : Value
  pub banner_blob_id : Value
  pub session_user : Value
  pub hydrated : Bool
  pub follower_modal_open : Modal
  pub follower_list : Value
  pub following_list : Value
  pub list_loading : Bool
  pub is_following : Bool
  pub follow_busy : Bool

-- `list.includes(v)`, `list.filter((u) => u !== v)` and `[...list, v]`
abbrev pub includes : Items → Value → Bool
includes nil v = false
includes (cons w ws) v = if same w v then true else includes ws v

abbrev pub filter_out : Items → Value → Items
filter_out nil v = nil
filter_out (cons w ws) v = let rest = filter_out ws v in if same w v then rest else cons w rest

abbrev pub append : Items → Value → Items
append nil v = cons v nil
append (cons w ws) v = cons w (append ws v)

-- `v || []` where an array is read.
abbrev pub items_or_empty : Value → Result Items
items_or_empty (arr vs) = ok vs
items_or_empty v = if truthy v then throw (builtin "TypeError" "map is not a function") else ok nil

-- The counts and lists of a profile; the program sends numbers and arrays.
abbrev on_number : (ℕ → ℕ) → Value → Value
on_number f (num n) = num (f n)
on_number f v = v

abbrev on_items : (Items → Items) → Value → Value
on_items f (arr vs) = arr (f vs)
on_items f v = v

-- `{ ...p, followers, followerList }` without, and with, the user among the followers.
abbrev pub fields_without : (user : Value) → Fields → Fields
fields_without user fs =
    field "followers" (on_number (λ n. n - 1) (field_of fs "followers"))
      (field "followerList" (on_items (λ us. filter_out us user) (field_of fs "followerList")) fs)

abbrev pub add_once : (user : Value) → Items → Items
add_once user us = if includes us user then us else append us user

abbrev pub fields_with : (user : Value) → Fields → Fields
fields_with user fs =
    field "followers" (on_number (λ n. n + 1) (field_of fs "followers"))
      (field "followerList" (on_items (add_once user) (field_of fs "followerList")) fs)

-- The updates of the profile; null stays null.
abbrev pub without_follower : (user profile : Value) → Value
without_follower user (obj fs) = obj (fields_without user fs)
without_follower user p = p

abbrev pub with_follower : (user profile : Value) → Value
with_follower user (obj fs) = obj (fields_with user fs)
with_follower user p = p

-- `{ username: u, followers: 0 }` for every name.
abbrev pub summaries : Items → Items
summaries nil = nil
summaries (cons u us) =
    cons (obj (field "username" u (field "followers" (num 0) end))) (summaries us)

-- `isSelf`
unfoldable is_self : (requested_user : Value) → Profile → Bool
is_self requested_user v = not (truthy requested_user) || same requested_user v.session_user

-- What the page shows, by its first three returns.
data Screen : Type 0 where
  loading_profile log_in not_found profile_shown : Screen

unfoldable screen_of : (requested_user : Value) → Profile → Screen
screen_of requested_user v =
    if not v.hydrated || v.loading
    then Screen.loading_profile
    else if not (truthy v.session_user) && not (truthy requested_user)
    then Screen.log_in
    else if truthy v.profile
    then Screen.profile_shown
    else Screen.not_found

-- `joinedText`; `month_of` is the month and year of a time in the language of the browser.
unfoldable joined_text : (month_of : Value → String) → Profile → Result String
joined_text month_of v =
    if truthy v.profile
    then Result.◌>>=◌ (member v.profile "createdAt")
        (λ t. ok (Prim.Native.String.◌++◌ "Joined " (month_of t)))
    else ok ""

module _ (p : Platform) (program_id : String) where
  -- The effect that reads the session.
  unfoldable read_session : Io (Page Profile) (Unit {0})
  unfolding get_session
  read_session = do
    user ← call (get_session p program_id)
    set (λ v. record v { session_user = or_else (peek user "username") null; hydrated = true })
