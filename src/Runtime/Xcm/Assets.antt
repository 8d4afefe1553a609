-- ===== src/Runtime/Xcm/Assets.antt =====
-- The assets that this chain takes over XCM (`IsReserve` and `LocalAssetTransactor` of
-- runtime/src/configs/xcm_config.rs), from those of xcm-builder.
use subtrate.Base.{
  arith, ℕ, ◌≡◌, refl, sym, ap, ◌∙◌, ◌⊎◌, inl, inr, ◌↔◌, Bool, true, List, [], ◌∷◌, Option, none,
  some,
}
use subtrate.Frame.Dispatch.{AccountId}
use subtrate.Runtime.Xcm.Barrier.{
  Junction, parachain, account_id32, plurality, another_junction, Location, relay_location,
}
use subtrate.Runtime.Xcm.Origins.{ConverterApi, location_to_account_id}
use subtrate.Runtime.Xcm.Dispatching.{IsConverterApi, shape, account_of-location}
use subtrate.Runtime.Xcm.Local.{account_location, if-some, some-value}

pub data Fungibility (V : Type 0) : Type 0 where
  fungible : ℕ → Fungibility V
  non_fungible : V → Fungibility V

pub record Asset (V : Type 0) : Type 0 where
  pub id : Location V
  pub amount : Fungibility V

-- The filters of reserves, of type `R`, the matchers of assets, `X`, and the transactors, `T`:
-- `credits` is whom a deposit credits, and with how much, and `mints` whether the currency takes an
-- amount for an account, in the state at hand.
pub record AssetApi (V A R X T : Type 0) : Type 0 where
  pub is_reserve : R → Asset V → Location V → Bool
  pub native_asset : R
  pub is_concrete : Location V → X
  pub fungible_adapter : X → A → T
  pub mints : AccountId → ℕ → Bool
  pub credits : T → Asset V → Location V → Option (AccountId × ℕ)

module _ {V A C R X T : Type 0} (converters : ConverterApi V A C) (api : AssetApi V A R X T) where
  unfoldable pub local_asset_transactor : T
  unfolding location_to_account_id
  local_asset_transactor =
      api.fungible_adapter (api.is_concrete relay_location) (location_to_account_id converters)

  -- `IsReserve` of `XcmConfig`
  abbrev pub reserve : R
  reserve = api.native_asset

  -- The documented behaviour of the three; what the currency refuses is not credited.
  pub record IsAssetApi : Type 0 where
    pub reserve_iff :
        (asset : Asset V) (origin : Location V)
        → (api.is_reserve api.native_asset asset origin ≡ true) ↔ (asset.id ≡ origin)
    pub credits_iff :
        (l : Location V) (a : A) (asset : Asset V) (who : Location V) (to : AccountId) (n : ℕ)
        → (api.credits (api.fungible_adapter (api.is_concrete l) a) asset who ≡ some (to, n)) ↔ (
            (asset.id ≡ l)
            × (asset.amount ≡ fungible n)
            × (converters.convert_location a who ≡ some to)
            × (api.mints to n ≡ true))

-- The accounts of the relay chain, of the sibling parachains, and those of this chain.
abbrev pub IsAccountOf :
    {V : Type 0} → AccountId → (ℕ → AccountId) → Location V → AccountId → Type 0
IsAccountOf preset sibling who a =
    ((who ≡ relay_location) × (preset ≡ a))
    ⊎ (((id : ℕ) × (who ≡ record { parents = 1; interior = parachain id ∷ [] }) × (sibling id ≡ a))
        ⊎ (who ≡ account_location a))

account_cases :
    {V : Type 0} (preset : AccountId) (sibling : ℕ → AccountId) (a : AccountId) (p : ℕ)
    → (js : List (Junction V))
    → shape (some preset) (λ id. some (sibling id)) (λ who. some who) p js ≡ some a
    → IsAccountOf preset sibling (record { parents = p; interior = js }) a
account_cases preset sibling a p [] h =
    let (at, e) = if-some p 1 (some preset) a h in inl (ground arith, some-value preset e)
account_cases preset sibling a p (parachain id ∷ []) h =
    let (at, e) = if-some p 1 (some (sibling id)) a h in
    inr (inl (id, ground arith, some-value (sibling id) e))
account_cases preset sibling a p (account_id32 none who ∷ []) h =
    let (at, e) = if-some p 0 (some who) a h in
    let same : who ≡ a = some-value who e in inr (inr (rw (at, same) refl))
account_cases preset sibling a p (parachain id ∷ j ∷ js) h = absurd (cc)
account_cases preset sibling a p (account_id32 none who ∷ j ∷ js) h = absurd (cc)
account_cases preset sibling a p (account_id32 (some n) who ∷ js) h = absurd (cc)
account_cases preset sibling a p (plurality b part ∷ js) h = absurd (cc)
account_cases preset sibling a p (another_junction v ∷ js) h = absurd (cc)

module _ {V A C R X T : Type 0} (converters : ConverterApi V A C) (preset : AccountId)
    (sibling : ℕ → AccountId) (laws : IsConverterApi converters preset sibling)
    (api : AssetApi V A R X T) (assets : IsAssetApi converters api) where
  account_iff :
      (who : Location V) (a : AccountId)
      → (converters.convert_location (location_to_account_id converters) who ≡ some a)
        ↔ IsAccountOf preset sibling who a
  account_iff who a =
      let by = account_of-location converters preset sibling laws who in
      (
        λ h. account_cases preset sibling a who.parents who.interior (sym by ∙ h),
        λ c. by ∙ elim c [
          | inl (at, e) ↦ rw at (ap some e)
          | inr (inl (id, at, e)) ↦ rw at (ap some e)
          | inr (inr at) ↦ rw at refl
        ],
      )

  -- This chain credits a reserve asset exactly if it is an amount of the relay chain's token, it
  -- comes from the relay chain, the beneficiary is the relay chain, a sibling parachain or an
  -- account here, and the currency takes this amount for the account of the beneficiary, as it does
  -- not below the existential deposit for a fresh account: then that account gets the amount.
  pub reserve_credit_iff :
      (asset : Asset V) (origin who : Location V) (to : AccountId) (n : ℕ)
      → ((api.is_reserve (reserve converters api) asset origin ≡ true)
          × (api.credits (local_asset_transactor converters api) asset who ≡ some (to, n)))
        ↔ ((origin ≡ relay_location)
            × (asset ≡ record { id = relay_location; amount = fungible n })
            × IsAccountOf preset sibling who to
            × (api.mints to n ≡ true))
  unfolding local_asset_transactor
  reserve_credit_iff asset origin who to n =
      let comes = assets.reserve_iff asset origin in
      let credited =
        assets.credits_iff relay_location (location_to_account_id converters) asset who to n in
      let owner = account_iff who to in
      (
        λ (from, c).
            let (token, amount, account, minted) = credited.0 c in
            (
              sym (comes.0 from) ∙ token,
              λ i. record { id = token i; amount = amount i },
              owner.0 account,
              minted,
            ),
        λ (relayed, same, account, minted). (
          comes.1 (ap (λ (x : Asset V). x.id) same ∙ sym relayed),
          credited.1 (
            ap (λ (x : Asset V). x.id) same,
            ap (λ (x : Asset V). x.amount) same,
            owner.1 account,
            minted,
          ),
        ),
      )
