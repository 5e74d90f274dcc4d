-- ===== src/Nbook/Pages/Panel.antt =====
-- The panel beside the feed (wasm_programs/nbook/ui/components/feed/right-panel.tsx): the search for
-- users and the suggestions.
use onvm.Base.{
  ◌≡◌, refl, ap, String, Bool, true, false, some, [], ◌∷◌, if◌then◌else◌, Bool-cases, inl, inr,
}
use onvm.Base.Texts.{trim, concat, front}
use onvm.Nbook.Client.{Browser}
use onvm.Nbook.Api.{search_users, get_suggestions, follow_user}
use onvm.Nbook.Pages.{Page, Variant, call, set, toast, notice, failure, attempt}
use onvm.Js.Value.{
  Value, null, str, arr, Items, nil, cons, truthy, same, peek, or_value, show_value,
}
use onvm.Js.Result.{Result, ok, throw}
use onvm.Js.Io.{Io, pure, catch, ◌>>=◌, ◌>>◌}
use onvm.Js.Platform.{Platform}

record Panel : Type 0 where
  pub query : String
  pub results : Value
  pub suggestions : Value
  pub pending_follow : Value

-- `prev.filter((u) => u.username !== name)`; the elements that the program sends are objects.
abbrev without_user : Value → Items → Items
without_user name nil = nil
without_user name (cons u us) =
    let rest = without_user name us in if same (peek u "username") name then rest else cons u rest

abbrev suggested : Value → Value → Value
suggested name (arr us) = arr (without_user name us)
suggested name v = v

-- The first letters of a user, `upper` is `toUpperCase`.
unfoldable row_initials : (upper : String → String) → (user : Value) → String
row_initials upper user = upper (
    front 2 (
      show_value (or_value (or_value (peek user "displayName") (peek user "username")) (str "NB"))))

module _ (p : Platform) (program_id : String) (session : Value) where
  -- The effect of the component; an error leaves the suggestions as they were.
  unfoldable load_suggestions : Io (Page Panel) (Unit {0})
  load_suggestions =
      if truthy (peek session "session")
      then catch
          (call (get_suggestions p program_id 5) >>= λ users.
            set (λ v. record v { suggestions = users }))
          (λ e. pure tt)
      else pure tt

  abbrev search_for : (trimmed : String) → Io (Page Panel) (Unit {0})
  search_for String.[] = pure tt
  search_for (String.◌∷◌ c t) =
      if truthy (peek session "session")
      then catch
          (call (search_users p program_id (String.◌∷◌ c t) 10) >>= λ users.
            set (λ v. record v { results = users }))
          (λ e. toast (failure "Search failed" e))
      else toast (record {
        title = "Login required";
        description = some "Log in to search users.";
        variant = Variant.destructive;
      })

  unfoldable perform_search : Io (Page Panel) (Unit {0})
  perform_search s = search_for (trim s.view.query) s

abbrev done_following : Panel → Panel
done_following v = record v { pending_follow = null }

abbrev now_followed : (name : Value) → Io (Page Panel) (Unit {0})
now_followed name =
    toast (notice (concat ("Following " ∷ show_value name ∷ [])))
    >> set (λ v. record v { suggestions = suggested name v.suggestions })

module _ (p : Platform) (program_id : String) where
  -- The button of a suggestion with this username.
  unfoldable follow_suggestion : (name : Value) → Io (Page Panel) (Unit {0})
  follow_suggestion name =
      set (λ v. record v { pending_follow = name })
      >> attempt "Follow failed" done_following
          (call (follow_user p program_id (show_value name)) >>= λ reply. now_followed name)

-- A user with this name is among those that are suggested.
abbrev suggests : Value → Items → Bool
suggests name nil = false
suggests name (cons u us) = if same (peek u "username") name then true else suggests name us

suggests-without_user : (name : Value) (us : Items) → suggests name (without_user name us) ≡ false
suggests-without_user name nil = refl
suggests-without_user name (cons u us) = elim (Bool-cases (same (peek u "username") name)) [
  | inl e ↦ rw e (suggests-without_user name us)
  | inr e ↦ rw (e, e) (suggests-without_user name us)
]

module _ (p : Platform) (program_id : String) (name : Value) where
  -- After the button of a suggestion no button is busy; the user is no longer suggested if the
  -- request succeeded, and the suggestions are as they were if it failed.
  abbrev IsOffered : Items → Result Value × Browser → Page Panel → Type 0
  IsOffered us (ok v, b) s = (w : Items) × (s.view.suggestions ≡ arr w) × (suggests name w ≡ false)
  IsOffered us (throw e, b) s = s.view.suggestions ≡ arr us

  after_follow-IsOffered :
      (us : Items) (r : Result Value × Browser) (s : Page Panel)
      → s.view.suggestions ≡ arr us
      → IsOffered us r
          (attempt "Follow failed" done_following
            (call (λ b. r) >>= λ reply. now_followed name)
            (record s { view = record s.view { pending_follow = name } })).1
  after_follow-IsOffered us (ok v, b) s h =
      (without_user name us, ap (suggested name) h, suggests-without_user name us)
  after_follow-IsOffered us (throw e, b) s h = h

  follow_suggestion-IsOffered :
      (us : Items) (s : Page Panel)
      → s.view.suggestions ≡ arr us
      → IsOffered us
          (follow_user p program_id (show_value name) s.browser)
          (follow_suggestion p program_id name s).1
        × ((follow_suggestion p program_id name s).1.view.pending_follow ≡ null)
  unfolding follow_suggestion
  follow_suggestion-IsOffered us s h =
      (after_follow-IsOffered us (follow_user p program_id (show_value name) s.browser) s h, refl)
