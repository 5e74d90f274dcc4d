-- ===== src/Js/Value.antt =====
-- Values of the dynamic language, as `JSON.parse` returns them and the clients read them.
use onvm.Base.Texts.{or_text, concat}
use onvm.Base.Decimal.{to_string}
use text.Mathlib.Text.{◌==◌}
use onvm.Base.{
  [], ◌∷◌, List, not, ◌≡◌, refl, some, ℕ, String, Bool, true, false, if◌then◌else◌, ◌==◌ as nat_eq,
}

mutual
  pub data Value : Type 0 where
    undefined null : Value
    bool : Bool → Value
    num : ℕ → Value
    str : String → Value
    obj : Fields → Value
    arr : Items → Value

  pub data Fields : Type 0 where
    end : Fields
    field : String → Value → Fields → Fields

  pub data Items : Type 0 where
    nil : Items
    cons : Value → Items → Items

-- `o.key` on an object: undefined where the key is missing.
abbrev pub field_of : Fields → String → Value
field_of end key = undefined
field_of (field k v fs) key = if k == key then v else field_of fs key

-- `v?.key`
abbrev pub peek : Value → String → Value
peek (obj fs) key = field_of fs key
peek _ key = undefined

-- The truth value of a test, `if (v)`.
abbrev pub truthy : Value → Bool
truthy undefined = false
truthy null = false
truthy (bool b) = b
truthy (num n) = if nat_eq n 0 then false else true
truthy (str String.[]) = false
truthy (str _) = true
truthy (arr _) = true
truthy (obj _) = true

-- `v || w`
abbrev pub or_value : Value → Value → Value
or_value v w = if truthy v then v else w

-- `v === "t"`
abbrev pub is_text : Value → String → Bool
is_text (str s) t = s == t
is_text _ t = false

-- `v === w`: two objects are never the same here, since each is read from a reply of its own.
abbrev pub same : Value → Value → Bool
same undefined undefined = true
same null null = true
same (bool a) (bool b) = if a then b else not b
same (num m) (num n) = nat_eq m n
same (str s) (str t) = s == t
same _ _ = false

-- `a ?? b`
abbrev pub or_else : Value → Value → Value
or_else undefined w = w
or_else null w = w
or_else v w = v

abbrev pub list_of : Items → List Value
list_of nil = []
list_of (cons v vs) = v ∷ list_of vs

-- In an array undefined and null are shown as nothing.
abbrev shown : Value → String → String
shown undefined t = ""
shown null t = ""
shown _ t = t

-- `String(v)`, as the constructor of Error applies it to its message.
unfoldable mutual
  unfolding to_string

  pub show_value : Value → String
  show_value undefined = "undefined"
  show_value null = "null"
  show_value (bool true) = "true"
  show_value (bool false) = "false"
  show_value (num n) = to_string n
  show_value (str s) = s
  show_value (arr vs) = show_items vs
  show_value (obj fs) = "[object Object]"

  show_items : Items → String
  show_items nil = ""
  show_items (cons v nil) = shown v (show_value v)
  show_items (cons v (cons w vs)) =
      concat (shown v (show_value v) ∷ "," ∷ show_items (cons w vs) ∷ [])

pub show_value-or_value :
    (t u : String) → show_value (or_value (str t) (str u)) ≡ or_text (some t) u
unfolding show_value
show_value-or_value String.[] u = refl
show_value-or_value (String.◌∷◌ c t) u = refl
