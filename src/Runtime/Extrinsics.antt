-- ===== src/Runtime/Extrinsics.antt =====
-- What a transaction goes through before its call is dispatched (`SignedExtra` of
-- runtime/src/lib.rs).
pub mod Replay
mod Examples
use mathlib.Core.Option.{some-injective}
use subtrate.Base.{
  ◌++◌, ℕ, ◌+◌, ◌≤◌, ◌<◌, ◌≡◌, ◌≢◌, refl, sym, ap, ◌∙◌, Option, Option-cases, inl, inr, none, some,
  List, [], ◌∷◌, arith, u32_max,
}
use subtrate.Frame.Dispatch.{AccountId}

-- The extensions that the libraries offer, of type `X`, and what one does with a transaction, of
-- type `T`, on the state `S` of the chain: `none` if it refuses it.
pub record ExtensionApi (S T X : Type 0) : Type 0 where
  pub check_non_zero_sender : X
  pub check_spec_version : X
  pub check_tx_version : X
  pub check_genesis : X
  pub check_era : X
  pub check_nonce : X
  pub check_weight : X
  pub charge_transaction_payment : X
  pub storage_weight_reclaim : X
  pub check_metadata_hash : X
  pub pre_dispatch : X → T → S → Option S

module _ {S T X : Type 0} (api : ExtensionApi S T X) where
  unfoldable pub signed_extra : List X
  signed_extra =
      api.check_non_zero_sender ∷ api.check_spec_version ∷ api.check_tx_version ∷ api.check_genesis
      ∷ api.check_era ∷ api.check_nonce ∷ api.check_weight ∷ api.charge_transaction_payment
      ∷ api.storage_weight_reclaim ∷ api.check_metadata_hash ∷ []

  abbrev and_then : Option S → (S → Option S) → Option S
  and_then none f = none
  and_then (some s) f = f s

  -- A tuple of extensions: each in turn, until one refuses.
  unfoldable pub pre_dispatch_all : List X → T → S → Option S
  pre_dispatch_all [] tx s = some s
  pre_dispatch_all (x ∷ xs) tx s = and_then (api.pre_dispatch x tx s) (pre_dispatch_all xs tx)

-- What a transaction says of itself, and what the state holds of an account.
pub record AccountView (S T : Type 0) : Type 0 where
  pub signer : T → AccountId
  pub nonce : T → ℕ
  pub fee : T → S → ℕ
  pub nonce_of : AccountId → S → ℕ
  pub balance_of : AccountId → S → ℕ

module _ {S T X : Type 0} (api : ExtensionApi S T X) (v : AccountView S T) where
  -- An extension that leaves the nonces, the balances and the fees.
  pub record Leaves (x : X) : Type 0 where
    pub nonces :
        (tx : T) (s t : S) (a : AccountId)
        → api.pre_dispatch x tx s ≡ some t
        → v.nonce_of a t ≡ v.nonce_of a s
    pub balances :
        (tx : T) (s t : S) (a : AccountId)
        → api.pre_dispatch x tx s ≡ some t
        → v.balance_of a t ≡ v.balance_of a s
    pub fees : (tx : T) (s t : S) → api.pre_dispatch x tx s ≡ some t → v.fee tx t ≡ v.fee tx s

  -- The documented behaviour: the nonce has to be that of the account, and is used up; the fee is
  -- taken from the signer; the others do neither.
  pub record IsExtensionApi : Type 0 where
    pub non_zero_sender : Leaves api.check_non_zero_sender
    pub spec_version : Leaves api.check_spec_version
    pub tx_version : Leaves api.check_tx_version
    pub genesis : Leaves api.check_genesis
    pub era : Leaves api.check_era
    pub weight : Leaves api.check_weight
    pub reclaim : Leaves api.storage_weight_reclaim
    pub metadata_hash : Leaves api.check_metadata_hash
    pub nonce-checked :
        (tx : T) (s t : S)
        → api.pre_dispatch api.check_nonce tx s ≡ some t
        → v.nonce tx ≡ v.nonce_of (v.signer tx) s
    pub nonce-used :
        (tx : T) (s t : S)
        → api.pre_dispatch api.check_nonce tx s ≡ some t
        → v.nonce_of (v.signer tx) s < u32_max
        → v.nonce_of (v.signer tx) t ≡ v.nonce_of (v.signer tx) s + 1
    pub nonce-balances :
        (tx : T) (s t : S) (a : AccountId)
        → api.pre_dispatch api.check_nonce tx s ≡ some t
        → v.balance_of a t ≡ v.balance_of a s
    pub nonce-fees :
        (tx : T) (s t : S)
        → api.pre_dispatch api.check_nonce tx s ≡ some t
        → v.fee tx t ≡ v.fee tx s
    pub charged :
        (tx : T) (s t : S)
        → api.pre_dispatch api.charge_transaction_payment tx s ≡ some t
        → v.balance_of (v.signer tx) t + v.fee tx s ≡ v.balance_of (v.signer tx) s
    pub charge-nonces :
        (tx : T) (s t : S) (a : AccountId)
        → api.pre_dispatch api.charge_transaction_payment tx s ≡ some t
        → v.nonce_of a t ≡ v.nonce_of a s
