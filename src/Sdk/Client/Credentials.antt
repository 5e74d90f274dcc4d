-- ===== src/Sdk/Client/Credentials.antt =====
-- What the constructor of `OnvmClient` makes of the credentials (onvm-sdk/src/client.ts).
use mathlib.Core.Path.{subst}
use onvm.Base.{◌≡◌, refl, sym, String, Bool, true, false, none, some, inl, inr, Option-cases}
use onvm.Base.Texts.{present}
use onvm.Sdk.Auth.{DerivedKeys, derive_keys}
use onvm.Sdk.Client.{
  OnvmClient, OnvmClientConfig, dev, prod, strip, keys_of, new_client, lacks_credentials,
}
use onvm.Sdk.Client.Request.{signer}
use onvm.Js.Result.{ok, >>=-eq-ok, ok_injective}
use onvm.Js.Platform.{Platform}

module _ (p : Platform) where
  -- Whether a client signs: not without credentials; with them, as its project, by keys that its
  -- secret gives.
  abbrev pub Signs : (lacks : Bool) → OnvmClient → Type 0
  Signs true c = (signer dev c ≡ none) × (signer prod c ≡ none)
  Signs false c =
      (keys : DerivedKeys) × (id : String) × (secret : String) × (present c.project_id ≡ some id)
      × (present c.project_secret ≡ some secret)
      × (derive_keys p secret ≡ ok keys)
      × (signer prod c ≡ some (keys, id))

  made-Signs :
      (c : OnvmClient)
      → keys_of p (present c.project_id) (present c.project_secret) ≡ ok c.derived_keys
      → Signs (lacks_credentials c) c
  made-Signs c h = elim (Option-cases (present c.project_id)) [
    | inl no_id ↦
        let lacks : lacks_credentials c ≡ true = rw (no_id, lacks_credentials) refl in
        let no_keys : c.derived_keys ≡ none = sym (ok_injective (rw no_id at h)) in
        subst (λ b. Signs b c) (sym lacks) (refl, rw (no_keys, signer) refl)
    | inr (id, has_id) ↦ elim (Option-cases (present c.project_secret)) [
      | inl no_secret ↦
          let lacks : lacks_credentials c ≡ true = rw (has_id, no_secret, lacks_credentials) refl in
          let no_keys : c.derived_keys ≡ none = sym (ok_injective (rw (has_id, no_secret) at h)) in
          subst (λ b. Signs b c) (sym lacks) (refl, rw (no_keys, signer) refl)
      | inr (secret, has_secret) ↦
          let lacks : lacks_credentials c ≡ false =
            rw (has_id, has_secret, lacks_credentials) refl in
          let (k, derived, same) =
            >>=-eq-ok (derive_keys p secret) _ _ (rw (has_id, has_secret) at h) in
          subst (λ b. Signs b c) (sym lacks)
            (
              k,
              id,
              secret,
              has_id,
              has_secret,
              derived,
              rw (sym (ok_injective same), has_id, signer) refl,
            )
    ]
  ]

  -- A client that the constructor returns signs in prod mode exactly if it does not lack credentials,
  -- which is what `detectNodeMode` asks; the keys are those of its secret.
  pub new_client-Signs :
      (config : OnvmClientConfig) (c : OnvmClient)
      → new_client p config ≡ ok c
      → Signs (lacks_credentials c) c
  unfolding new_client
  new_client-Signs config c h =
      let (url, has_url, h₁) = >>=-eq-ok (strip config.rpc_url) _ _ h in
      let (keys, has_keys, h₂) =
        >>=-eq-ok (keys_of p (present config.project_id) (present config.project_secret)) _ _ h₁ in
      subst (λ made. Signs (lacks_credentials made) made) (ok_injective h₂) (made-Signs _ has_keys)
