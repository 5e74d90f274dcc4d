-- ===== src/Js/Serde.antt =====
-- How the programs that are written in Rust turn their data into JSON.
use onvm.Base.{◌≡◌, ◌⊎◌, ◌↔◌, refl, String, Option, none, some, List, [], ◌∷◌, inl, inr}
use onvm.Js.Shape.{text, nullable, Has, AllItems}
use onvm.Js.Value.{Value, undefined, null, str, Items, nil, cons}

-- An `Option` that is None is written as null.
abbrev pub option_value : Option String → Value
option_value none = null
option_value (some t) = str t

abbrev pub items : {A : Type 0} → (A → Value) → List A → Items
items f [] = nil
items f (a ∷ l) = cons (f a) (items f l)

pub items-AllItems :
    {A : Type 0} (P : Value → Type 0) (f : A → Value)
    → ((a : A) → P (f a))
    → (l : List A) → AllItems P (items f l)
items-AllItems P f h [] = tt
items-AllItems P f h (a ∷ l) = (h a, items-AllItems P f h l)

pub option_value-Has : (t : Option String) → Has (nullable text) (option_value t)
unfolding Has
option_value-Has none = inl refl
option_value-Has (some t) = inr (t, refl)

abbrev pub IsPresent : Option String → Type 0
IsPresent none = ⊥
IsPresent (some t) = Unit

-- An `Option` is written as a value that is missing or a text exactly if it is not None.
pub option_value-IsPresent :
    (t : Option String) → ((option_value t ≡ undefined) ⊎ Has text (option_value t)) ↔ IsPresent t
unfolding Has
option_value-IsPresent none = (λ h. elim h [ inl e ↦ cc | inr (t, e) ↦ cc ], λ h. elim h [ ])
option_value-IsPresent (some t) = (λ h. tt, λ h. inr (t, refl))
