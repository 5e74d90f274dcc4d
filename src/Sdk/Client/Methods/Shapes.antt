-- ===== src/Sdk/Client/Methods/Shapes.antt =====
-- The types of the optional and of the repeated members of requests.
use onvm.Base.{◌<◌, ◌≡◌, ◌⊎◌, refl, ℕ, String, Option, none, some, List, [], ◌∷◌, inl, inr}
use onvm.Sdk.Client.Methods.{texts, text_fields, optional_text, optional_number, optional_texts}
use onvm.Js.Shape.{Shape, text, number, below, nullable, table, Has, AllItems, AllFields}
use onvm.Js.Value.{Value, undefined}

pub texts-AllItems : (ts : List String) → AllItems (Has text) (texts ts)
unfolding Has
texts-AllItems [] = tt
texts-AllItems (t ∷ ts) = ((t, refl), texts-AllItems ts)

text_fields-AllFields : (m : List (String × String)) → AllFields (Has text) (text_fields m)
unfolding Has
text_fields-AllFields [] = tt
text_fields-AllFields ((k, t) ∷ m) = ((t, refl), text_fields-AllFields m)

-- A member that is missing, or has the type.
abbrev IsMissingOr : Shape → Value → Type 0
IsMissingOr s v = (v ≡ undefined) ⊎ Has s v

pub optional_text-Has : (t : Option String) → IsMissingOr text (optional_text t)
unfolding Has
optional_text-Has none = inl refl
optional_text-Has (some t) = inr (t, refl)

pub optional_text-nullable : (t : Option String) → IsMissingOr (nullable text) (optional_text t)
unfolding Has
optional_text-nullable none = inl refl
optional_text-nullable (some t) = inr (inr (t, refl))

pub optional_number-nullable : (n : Option ℕ) → IsMissingOr (nullable number) (optional_number n)
unfolding Has
optional_number-nullable none = inl refl
optional_number-nullable (some n) = inr (inr (n, refl))

-- A number, if it is there, below a bound.
abbrev pub IsBelow : (bound : ℕ) → Option ℕ → Type 0
IsBelow bound none = Unit
IsBelow bound (some n) = n < bound

pub optional_number-IsBelow :
    (bound : ℕ) (n : Option ℕ)
    → IsBelow bound n
    → IsMissingOr (nullable (below bound)) (optional_number n)
unfolding Has
optional_number-IsBelow bound none h = inl refl
optional_number-IsBelow bound (some n) h = inr (inr (n, refl, h))

pub optional_number-Has : (n : Option ℕ) → IsMissingOr number (optional_number n)
unfolding Has
optional_number-Has none = inl refl
optional_number-Has (some n) = inr (n, refl)

pub optional_texts-Has :
    (m : Option (List (String × String))) → IsMissingOr (table text) (optional_texts m)
unfolding Has
optional_texts-Has none = inl refl
optional_texts-Has (some m) = inr (_, refl, text_fields-AllFields m)
