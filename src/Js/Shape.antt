-- ===== src/Js/Shape.antt =====
-- Types of JSON values, as the interfaces of TypeScript and the structures of the programs declare
-- them. An object may have more members than its type names.
use package.text.Mathlib.Text.{◌==◌}
use onvm.Base.{
  ◌<◌, ℕ, ◌≡◌, ◌⊎◌, Bool, false, String, Option, none, some, List, [], ◌∷◌, if◌then◌else◌,
}
use onvm.Js.Value.{
  Value, undefined, null, bool, num, str, arr, obj, Items, nil, cons, Fields, field_of, peek,
}

mutual
  pub data Shape : Type 0 where
    -- `unknown`, `void`, `string`, `number`, `boolean`
    any absent text number boolean : Shape
    -- A whole number below this bound: `u32`, `usize`, `int`
    below : (bound : ℕ) → Shape
    -- `"t"`
    literal : (t : String) → Shape
    -- `s | null`
    nullable : (s : Shape) → Shape
    -- `s[]`
    array : (s : Shape) → Shape
    -- `Record<string, s>`
    table : (s : Shape) → Shape
    object : (ms : Members) → Shape

  pub data Members : Type 0 where
    done : Members
    ◌⨾◌ : (m : Member) → (ms : Members) → Members

  -- `name: s` and `name?: s`
  pub data Member : Type 0 where
    ◌∶◌ ◌∶?◌ : (name : String) → (s : Shape) → Member

infix 20 ◌∶◌ ◌∶?◌
infixr 10 ◌⨾◌
abbrev pub AllItems : (Value → Type 0) → Items → Type 0
AllItems P nil = Unit
AllItems P (cons v vs) = P v × AllItems P vs

abbrev pub AllFields : (Value → Type 0) → Fields → Type 0
AllFields P Fields.end = Unit
AllFields P (Fields.field k v fs) = P v × AllFields P fs

-- The value has the type.
unfoldable mutual
  pub Has : Shape → Value → Type 0
  Has any v = Unit
  Has absent v = v ≡ undefined
  Has text v = (t : String) × (v ≡ str t)
  Has number v = (n : ℕ) × (v ≡ num n)
  Has (below bound) v = (n : ℕ) × (v ≡ num n) × (n < bound)
  Has boolean v = (b : Bool) × (v ≡ bool b)
  Has (literal t) v = v ≡ str t
  Has (nullable s) v = (v ≡ null) ⊎ Has s v
  Has (array s) v = (vs : Items) × (v ≡ arr vs) × AllItems (Has s) vs
  Has (table s) v = (fs : Fields) × (v ≡ obj fs) × AllFields (Has s) fs
  Has (object ms) v = (fs : Fields) × (v ≡ obj fs) × HasMembers ms fs

  pub HasMembers : Members → Fields → Type 0
  HasMembers done fs = Unit
  HasMembers (m ⨾ ms) fs = HasMember m fs × HasMembers ms fs

  pub HasMember : Member → Fields → Type 0
  HasMember (name ∶ s) fs = Has s (field_of fs name)
  HasMember (name ∶? s) fs = (field_of fs name ≡ undefined) ⊎ Has s (field_of fs name)

-- The entry of a table.
abbrev pub entry : {A : Type 0} → List (String × A) → String → Option A
entry [] key = none
entry ((k, a) ∷ entries) key = if k == key then some a else entry entries key

-- An object whose member `tag` names a variant of the table, and that has the members of this variant.
abbrev pub IsVariant : (tag : String) → List (String × Members) → Value → Type 0
IsVariant tag variants v =
    (name : String) × (ms : Members) × (peek v tag ≡ str name)
    × (entry variants name ≡ some ms)
    × Has (object ms) v

-- An object whose status is a text other than `failed`.
pub record Succeeds (failed : String) (r : Value) : Type 0 where
  pub fs : Fields
  pub status : String
  pub is_object : r ≡ obj fs
  pub has_status : field_of fs "status" ≡ str status
  pub no_error : (status == failed) ≡ false
