-- ===== src/Gateway/Explorer/Disposition.antt =====
-- The name of a downloaded file: the match of /filename="([^"]+)"/ in the header
-- (src/blob_gateway/ui/src/pages/Index.tsx).
use Prim.Native.String
use Prim.Native.Char.{Char, code}
use text.Mathlib.TextLemmas.{nil-append, cons-append}
use onvm.Base.{
  ◌≡◌, refl, ap, ◌==◌, String, Option, none, some, if◌then◌else◌, Bool-cases, inl, inr, arith,
}
use onvm.Base.Texts.{Lacks}
use mathlib.Core.Option

-- The text after a prefix, if it has it.
abbrev after_prefix : (prefix s : String) → Option String
after_prefix String.[] s = some s
after_prefix (String.◌∷◌ c q) String.[] = none
after_prefix (String.◌∷◌ c q) (String.◌∷◌ d s) =
    let rest = after_prefix q s in if code c == code d then rest else none

-- The text before the first quotation mark, if there is one.
abbrev to_quote : String → Option String
to_quote String.[] = none
to_quote (String.◌∷◌ c s) =
    let rest = to_quote s in
    if code c == b'"' then some "" else Option.map (λ t. String.◌∷◌ c t) rest

abbrev not_empty : Option String → Option String
not_empty none = none
not_empty (some String.[]) = none
not_empty (some (String.◌∷◌ c t)) = some (String.◌∷◌ c t)

abbrev quoted : Option String → Option String
quoted none = none
quoted (some s) = not_empty (to_quote s)

abbrev first : Option String → Option String → Option String
first none o = o
first (some t) o = some t

-- The leftmost match.
pub file_name : String → Option String
file_name String.[] = none
file_name (String.◌∷◌ c s) =
    let rest = file_name s in first (quoted (after_prefix "filename=\"" (String.◌∷◌ c s))) rest

after_prefix-append : (q s : String) → after_prefix q (String.◌++◌ q s) ≡ some s
after_prefix-append String.[] s = ap some (nil-append s)
after_prefix-append (String.◌∷◌ c q) s = rw cons-append (elim (Bool-cases (code c == code c)) [
  | inl e ↦ rw e (after_prefix-append q s)
  | inr e ↦ absurd (ground arith)
])

to_quote-append :
    (t s : String) → Lacks b'"' t → to_quote (String.◌++◌ t (String.◌∷◌ "\"" s)) ≡ some t
to_quote-append String.[] s h = rw nil-append refl
to_quote-append (String.◌∷◌ c t) s (p, h) = elim (Bool-cases (code c == b'"')) [
  | inl e ↦ absurd (p (ground arith))
  | inr e ↦ rw (cons-append, e, to_quote-append t s h) refl
]

-- A header with a file name, after a text without the letter f.
abbrev pub header_of : (before name rest : String) → String
header_of before name rest =
    String.◌++◌ before (String.◌++◌ "filename=\"" (String.◌++◌ name (String.◌∷◌ "\"" rest)))

name_first :
    (c : Char) (name rest : String)
    → Lacks b'"' (String.◌∷◌ c name)
    → file_name (String.◌++◌ "filename=\"" (String.◌++◌ (String.◌∷◌ c name) (String.◌∷◌ "\"" rest)))
      ≡ some (String.◌∷◌ c name)
unfolding file_name
name_first c name rest h =
    let tail : String = String.◌++◌ (String.◌∷◌ c name) (String.◌∷◌ "\"" rest) in
    let found : after_prefix "filename=\"" (String.◌∷◌ "f" (String.◌++◌ "ilename=\"" tail))
        ≡ some tail =
      rw (cons-append "f" "ilename=\"" tail) at (after_prefix-append "filename=\"" tail) in
    rw (cons-append "f" "ilename=\"" tail, found, to_quote-append (String.◌∷◌ c name) rest h) refl

-- The name that the header gives is found, if it is not empty and has no quotation mark.
pub file_name-header_of :
    (before : String) (c : Char) (name rest : String)
    → Lacks b'f' before
    → Lacks b'"' (String.◌∷◌ c name)
    → file_name (header_of before (String.◌∷◌ c name) rest) ≡ some (String.◌∷◌ c name)
unfolding file_name
file_name-header_of String.[] c name rest h k = rw nil-append (name_first c name rest k)
file_name-header_of (String.◌∷◌ d before) c name rest (p, h) k =
    elim (Bool-cases (b'f' == code d)) [
      | inl e ↦ absurd (p (ground arith))
      | inr e ↦ rw (cons-append, e) (file_name-header_of before c name rest h k)
    ]
