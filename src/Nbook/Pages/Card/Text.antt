-- ===== src/Nbook/Pages/Card/Text.antt =====
-- The texts of a card: how old it is, its link, and what is shown of an attachment.
use Prim.Native.Char.{Char, code}
use text.Mathlib.TextLemmas.{cons-append}
use text.Mathlib.Text.{starts_with}
use onvm.Base.{
  ℕ, ◌≡◌, refl, ◌≤◌, ◌<◌, ◌+◌, ◌-◌, ◌*◌, ◌/◌, String, Option, none, some, [], ◌∷◌, Bool-cases, inl,
  inr, ◌⊎◌, ltb, if◌then◌else◌, arith,
}
use onvm.Base.Texts.{
  concat, present, or_text, size, front, back, before, second_piece, split-concat, Lacks,
}
use onvm.Base.Decimal.{to_string}
use onvm.Sdk.Errors.{builtin}
use onvm.Js.Value.{Value, str, peek, or_value, truthy, show_value, or_else}
use onvm.Js.Result.{Result, ok, throw}

-- The text of a difference in milliseconds.
abbrev age_text : ℕ → String
age_text diff =
    let minutes = diff / 60000 in
    let hours = diff / 3600000 in
    let days = diff / 86400000 in
    if ltb minutes 1
    then "just now"
    else if ltb minutes 60
    then concat (to_string minutes ∷ "m ago" ∷ [])
    else if ltb hours 24
    then concat (to_string hours ∷ "h ago" ∷ [])
    else concat (to_string days ∷ "d ago" ∷ [])

-- `formatTimestamp`, at the time `now`; a time to come gives the same text as `now`.
unfoldable format_timestamp : (now timestamp : ℕ) → String
format_timestamp now timestamp = age_text (now - timestamp)

-- The text counts the whole units in `age`.
abbrev IsCount : (age unit : ℕ) → (name text : String) → Type 0
IsCount age unit name text =
    (n : ℕ) × (text ≡ concat (to_string n ∷ name ∷ [])) × (n * unit ≤ age) × (age < n * unit + unit)

-- The text of an age in milliseconds: in minutes, hours or days.
abbrev IsAge : ℕ → String → Type 0
IsAge age text =
    ((age < 60000) × (text ≡ "just now"))
    ⊎ ((60000 ≤ age) × (age < 3600000) × IsCount age 60000 "m ago" text)
    ⊎ ((3600000 ≤ age) × (age < 86400000) × IsCount age 3600000 "h ago" text)
    ⊎ ((86400000 ≤ age) × IsCount age 86400000 "d ago" text)

age_text-IsAge : (d : ℕ) → IsAge d (age_text d)
age_text-IsAge d = elim (Bool-cases (ltb (d / 60000) 1)) [
  | inl now ↦ inl (ground arith, rw now refl)
  | inr m ↦ elim (Bool-cases (ltb (d / 60000) 60)) [
    | inl few ↦
        inr (
          inl (ground arith, ground arith, (d / 60000, rw (m, few) refl, omega arith, omega arith)))
    | inr h ↦ elim (Bool-cases (ltb (d / 3600000) 24)) [
      | inl few ↦ inr (
          inr (
            inl (
              ground arith,
              ground arith,
              (d / 3600000, rw (m, h, few) refl, omega arith, omega arith),
            )))
      | inr days ↦
          inr (
            inr
              (inr (ground arith, (d / 86400000, rw (m, h, days) refl, omega arith, omega arith))))
    ]
  ]
]

-- What is shown is the age in whole minutes below an hour, in hours below a day, else in days.
format_timestamp-IsAge :
    (now timestamp : ℕ) → IsAge (now - timestamp) (format_timestamp now timestamp)
unfolding format_timestamp
format_timestamp-IsAge now timestamp = age_text-IsAge (now - timestamp)

-- `initials`; `upper` is `toUpperCase`, and a text is cut by characters.
unfoldable initials : (upper : String → String) → (local_post post : Value) → String
unfolding show_value
initials upper local_post post =
    let author = or_value (peek local_post "author") (peek post "author") in
    if truthy author then upper (front 2 (show_value author)) else "NB"

-- `shareUrl`; `encode` is `encodeURIComponent`, and `base` the origin of the window.
unfoldable pub share_url : (encode : String → String) → (base : String) → (post : Value) → String
unfolding show_value
share_url encode base post =
    concat (base ∷ "/feed?post=" ∷ encode (show_value (or_else (peek post "id") (str ""))) ∷ [])

-- `shortId`
unfoldable short_id : String → String
short_id id =
    if ltb 16 (size id) then concat (front 8 id ∷ "…" ∷ back (size id - 6) id ∷ []) else id

-- `Math.round(size / 1024)`
unfoldable kilobytes : ℕ → ℕ
kilobytes n = (n + 512) / 1024

-- What is shown of an attachment.
pub data View : Type 0 where
  failed : (message : String) → View
  image : (url : String) → View
  audio : (url content_type : String) → View
  video : (url content_type : String) → View
  download : (url label : String) → View
  loading : View

abbrev shown_as : (url : String) → Option String → Result View
shown_as url none = throw (builtin "TypeError" "Cannot read properties of undefined")
shown_as url (some ct) = ok (
    if starts_with ct "image/"
    then View.image url
    else if starts_with ct "audio/"
    then View.audio url ct
    else if starts_with ct "video/"
    then View.video url ct
    else View.download url (concat ("Download attachment (" ∷ or_text (some ct) "file" ∷ ")" ∷ [])))

abbrev view_pieces : (url content_type : Option String) → Result View
view_pieces none content_type = ok View.loading
view_pieces (some url) content_type = shown_as url content_type

abbrev view_stored : Option String → Result View
view_stored none = ok View.loading
view_stored (some stored) =
    view_pieces (present (some (before "|" stored))) (second_piece "|" stored)

-- By the entries of the attachment in the two tables, `attachmentErrors` and `attachments`.
pub view_of : (error stored : Option String) → Result View
view_of error stored = elim (present error) [
  | some message ↦ ok (View.failed message)
  | none ↦ view_stored (present stored)
]

-- `url|contentType`, as a loaded attachment is stored.
abbrev pub stored_entry : (url content_type : String) → String
stored_entry url content_type = concat (url ∷ "|" ∷ content_type ∷ [])

-- What is shown of a loaded attachment, by its type.
abbrev pub view_loaded : (url content_type : String) → Result View
view_loaded url content_type = shown_as url (some content_type)

present-stored_entry :
    (c : Char) (url ct : String)
    → present (some (stored_entry (String.◌∷◌ c url) ct))
      ≡ some (stored_entry (String.◌∷◌ c url) ct)
present-stored_entry c url ct = rw cons-append refl

-- An attachment that was stored with its address and its type is shown with them, if neither has a
-- bar and the address is not empty.
pub view_of-stored_entry :
    (c : Char) (url content_type : String)
    → Lacks (code "|") (String.◌∷◌ c url)
    → Lacks (code "|") content_type
    → view_of none (some (stored_entry (String.◌∷◌ c url) content_type))
      ≡ view_loaded (String.◌∷◌ c url) content_type
unfolding view_of
view_of-stored_entry c url ct h k =
    let (first, second) = split-concat "|" (String.◌∷◌ c url) ct h k in
    rw (present-stored_entry c url ct, first, second) refl
