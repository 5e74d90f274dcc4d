-- ===== src/Js/Result.antt =====
-- A computation that returns or throws.
use onvm.Sdk.Errors.{Fault, builtin}
use onvm.Js.Value.{Value, undefined, null, obj, field_of}
use onvm.Base.{◌≡◌, refl, String}

pub data Result {ℓ} (A : Type ℓ) : Type ℓ where
  ok : A → Result A
  throw : Fault → Result A

infixl 5 ◌>>=◌ ◌>>◌
abbrev pub ◌>>=◌ {ℓ κ} : {B : Type κ} {A : Type ℓ} → Result A → (A → Result B) → Result B
throw e >>= next = throw e
ok value >>= next = next value

abbrev pub ◌>>◌ {ℓ} : {B : Type ℓ} → Result (Unit {0}) → Result B → Result B
m >> k = m >>= λ _. k

-- `try { m } catch (e) { throw f(e) }`
abbrev pub rethrow {ℓ} : {A : Type ℓ} → (Fault → Fault) → Result A → Result A
rethrow f (ok a) = ok a
rethrow f (throw e) = throw (f e)

-- `v.key`: reading a member of undefined or null is a TypeError; other values than objects have
-- none of the members that the code reads.
abbrev pub member : Value → String → Result Value
member undefined key = throw (builtin "TypeError" "Cannot read properties of undefined")
member null key = throw (builtin "TypeError" "Cannot read properties of null")
member (obj fs) key = ok (field_of fs key)
member _ key = ok undefined

pub ok_injective {ℓ} : {A : Type ℓ} {a b : A} → ok a ≡ ok b → a ≡ b
ok_injective h = cc

-- A chain that returns has returned at its first step.
pub >>=-eq-ok {ℓ κ} :
    {B : Type κ} {A : Type ℓ} (r : Result A) (f : A → Result B) (b : B)
    → (r >>= f) ≡ ok b
    → (a : A) × (r ≡ ok a) × (f a ≡ ok b)
>>=-eq-ok (ok a) f b h = (a, refl, h)
>>=-eq-ok (throw e) f b h = cc
