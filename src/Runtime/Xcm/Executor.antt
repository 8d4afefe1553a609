-- ===== src/Runtime/Xcm/Executor.antt =====
-- What the executor of messages and pallet-xcm let through (`XcmConfig` and `impl
-- pallet_xcm::Config for Runtime` of runtime/src/configs/xcm_config.rs), by the filters of the two
-- configurations.
use mathlib.Core.Bool.{true≢false}
use subtrate.Base.{ℕ, ◌≡◌, refl, sym, ◌∙◌, ◌↔◌, Bool, true, false, List, [], ◌∷◌}
use subtrate.Runtime.Xcm.Barrier.{Junction, Location}
use subtrate.Runtime.Xcm.Origins.{ConverterApi}
use subtrate.Runtime.Xcm.Assets.{Asset, AssetApi, IsAssetApi, reserve}

-- The instructions that a filter of the executor decides; `Y` is the type of calls.
pub data Instruction (V Y : Type 0) : Type 0 where
  receive_teleported_asset : List (Asset V) → Instruction V Y
  reserve_asset_deposited : List (Asset V) → Instruction V Y
  transact : Y → Instruction V Y
  alias_origin : Location V → Instruction V Y
  universal_origin : Junction V → Instruction V Y
  lock_asset : Asset V → Instruction V Y
  exchange_asset : List (Asset V) → Instruction V Y
  export_message : Instruction V Y

-- Of `xcm_executor::Config` the filters, and which of the handlers are none at all, `()`.
pub record ExecutorConfig (V Y R : Type 0) : Type 0 where
  pub is_reserve : R
  pub is_teleporter : Asset V → Location V → Bool
  pub aliasers : Location V → Location V → Bool
  pub universal_aliases : Location V → Junction V → Bool
  pub safe_call_filter : Y → Bool
  pub max_assets_into_holding : ℕ
  pub has_asset_locker : Bool
  pub has_asset_exchanger : Bool
  pub has_message_exporter : Bool

-- `Nothing` and `()` contain nothing.
unfoldable pub executor_config : {V Y R : Type 0} → R → ExecutorConfig V Y R
executor_config reserves = record {
  is_reserve = reserves;
  is_teleporter = λ asset origin. false;
  aliasers = λ origin target. false;
  universal_aliases = λ origin junction. false;
  safe_call_filter = λ call. true;
  max_assets_into_holding = 64;
  has_asset_locker = false;
  has_asset_exchanger = false;
  has_message_exporter = false;
}

abbrev pub AllOf {ℓ κ} : {A : Type ℓ} → (A → Type κ) → List A → Type κ
AllOf P [] = Unit
AllOf P (a ∷ l) = P a × AllOf P l

-- Whether the executor carries out an instruction of a message from a location; `fits` is whether
-- the holding register takes assets, by its limit.
pub record ExecutorApi (V Y R : Type 0) : Type 0 where
  pub executes : ExecutorConfig V Y R → Location V → Instruction V Y → Bool
  pub fits : ℕ → List (Asset V) → Bool

module _ {V A Y R X T : Type 0} (api : ExecutorApi V Y R) (assets : AssetApi V A R X T) where
  -- The documented behaviour.
  pub record IsExecutorApi : Type 0 where
    pub teleports_iff :
        (c : ExecutorConfig V Y R) (o : Location V) (l : List (Asset V))
        → (api.executes c o (receive_teleported_asset l) ≡ true) ↔ (
            AllOf (λ a. c.is_teleporter a o ≡ true) l
            × (api.fits c.max_assets_into_holding l ≡ true))
    pub reserves_iff :
        (c : ExecutorConfig V Y R) (o : Location V) (l : List (Asset V))
        → (api.executes c o (reserve_asset_deposited l) ≡ true) ↔ (
            AllOf (λ a. assets.is_reserve c.is_reserve a o ≡ true) l
            × (api.fits c.max_assets_into_holding l ≡ true))
    pub calls :
        (c : ExecutorConfig V Y R) (o : Location V) (y : Y)
        → api.executes c o (transact y) ≡ c.safe_call_filter y
    pub aliases :
        (c : ExecutorConfig V Y R) (o l : Location V)
        → api.executes c o (alias_origin l) ≡ c.aliasers o l
    pub universal :
        (c : ExecutorConfig V Y R) (o : Location V) (j : Junction V)
        → api.executes c o (universal_origin j) ≡ c.universal_aliases o j
    pub locks :
        (c : ExecutorConfig V Y R) (o : Location V) (a : Asset V)
        → c.has_asset_locker ≡ false
        → api.executes c o (lock_asset a) ≡ false
    pub exchanges :
        (c : ExecutorConfig V Y R) (o : Location V) (l : List (Asset V))
        → c.has_asset_exchanger ≡ false
        → api.executes c o (exchange_asset l) ≡ false
    pub exports :
        (c : ExecutorConfig V Y R) (o : Location V)
        → c.has_message_exporter ≡ false
        → api.executes c o export_message ≡ false

  -- What the chain lets a message from a location do.
  abbrev pub IsOpen : Location V → Instruction V Y → Type 0
  IsOpen o (receive_teleported_asset l) = (l ≡ []) × (api.fits 64 l ≡ true)
  IsOpen o (reserve_asset_deposited l) = AllOf (λ a. a.id ≡ o) l × (api.fits 64 l ≡ true)
  IsOpen o (transact y) = Unit
  IsOpen o (alias_origin l) = ⊥
  IsOpen o (universal_origin j) = ⊥
  IsOpen o (lock_asset a) = ⊥
  IsOpen o (exchange_asset l) = ⊥
  IsOpen o export_message = ⊥

no_teleport : {V : Type 0} (l : List (Asset V)) → AllOf (λ a. false ≡ true) l → l ≡ []
no_teleport [] h = refl
no_teleport (a ∷ l) (h, hs) = absurd (cc)

AllOf-map :
    {B : Type 0} {P Q : B → Type 0} (l : List B) → ((b : B) → P b → Q b) → AllOf P l → AllOf Q l
AllOf-map [] f h = tt
AllOf-map (b ∷ l) f (h, hs) = (f b h, AllOf-map l f hs)

module _ {V A C Y R X T : Type 0} (converters : ConverterApi V A C) (api : ExecutorApi V Y R)
    (assets : AssetApi V A R X T) (filters : IsAssetApi converters assets)
    (laws : IsExecutorApi api assets) where
  abbrev config : ExecutorConfig V Y R
  config = executor_config (reserve converters assets)

  closed : {b : Bool} → b ≡ false → (b ≡ true) ↔ ⊥
  closed e = (λ h. true≢false (sym h ∙ e), λ x. absurd x)

  -- Of the instructions that the filters decide, a message may bring assets only as reserve assets
  -- of the very location that it comes from, as many as the holding register takes, and may
  -- dispatch any call. It can bring no teleported asset, take on no other origin, and lock,
  -- exchange or export nothing.
  pub executes_iff :
      (o : Location V) (i : Instruction V Y)
      → (api.executes (executor_config (reserve converters assets)) o i ≡ true)
        ↔ IsOpen api assets o i
  unfolding executor_config
  executes_iff o (receive_teleported_asset l) =
      let at = laws.teleports_iff config o l in
      (
        λ h. let (none_at_all, room) = at.0 h in (no_teleport l none_at_all, room),
        λ (empty, room). at.1 (rw empty tt, room),
      )
  executes_iff o (reserve_asset_deposited l) =
      let at = laws.reserves_iff config o l in
      (
        λ h.
            let (all, room) = at.0 h in
            (AllOf-map l (λ a e. (filters.reserve_iff a o).0 e) all, room),
        λ (all, room). at.1 (AllOf-map l (λ a e. (filters.reserve_iff a o).1 e) all, room),
      )
  executes_iff o (transact y) = (λ h. tt, λ x. laws.calls config o y)
  executes_iff o (alias_origin l) = closed (laws.aliases config o l)
  executes_iff o (universal_origin j) = closed (laws.universal config o j)
  executes_iff o (lock_asset a) = closed (laws.locks config o a refl)
  executes_iff o (exchange_asset l) = closed (laws.exchanges config o l refl)
  executes_iff o export_message = closed (laws.exports config o refl)
