-- ===== src/Runtime/Xcm/UserCalls.antt =====
-- The calls of pallet-xcm (`impl pallet_xcm::Config for Runtime` of
-- runtime/src/configs/xcm_config.rs), by the origins and the filters of its configuration.
use subtrate.Base.{ℕ, ◌≤◌, ◌≡◌, refl, length, sym, ◌∙◌, ◌↔◌, Bool, true, false, List, none, some}
use subtrate.Runtime.Pallets.{Pallet, balances}
use subtrate.Runtime.Xcm.Barrier.{Junction, Location, universal_location}
use subtrate.Runtime.Xcm.Origins.{
  RuntimeOrigin, root, signed, relay, sibling_para, xcm_origin, ConverterApi,
  location_to_account_id,
}
use subtrate.Runtime.Xcm.Checks.{
  CheckApi, IsCheckApi, send_xcm_origin, execute_xcm_origin, admin_origin, local_origin_to_location,
  account_of, or_else, root_here, here_location,
}
use subtrate.Runtime.Xcm.Local.{account_location}
use subtrate.Runtime.Xcm.Assets.{Asset}
use subtrate.Runtime.Xcm.Router.{RouterApi, xcm_router}
use subtrate.Runtime.Xcm.Weighing.{WeigherApi, weigher}
use subtrate.Runtime.Limits.{LimitApi}

-- The calls that a filter of pallet-xcm decides; messages are of the type `M`.
pub data UserCall (V M : Type 0) : Type 0 where
  send : M → UserCall V M
  execute : M → UserCall V M
  teleport_assets : List (Asset V) → UserCall V M
  reserve_transfer_assets : List (Asset V) → UserCall V M

-- Of `pallet_xcm::Config` what is an origin, a filter, a number or part of this configuration.
pub record PalletXcmConfig (V A O E R G M : Type 0) : Type 0 where
  pub send_xcm_origin : E
  pub xcm_router : R
  pub execute_xcm_origin : E
  pub xcm_execute_filter : Location V → M → Bool
  pub xcm_teleport_filter : Location V → List (Asset V) → Bool
  pub xcm_reserve_transfer_filter : Location V → List (Asset V) → Bool
  pub weigher : G
  pub universal_location : List (Junction V)
  pub version_discovery_queue_size : ℕ
  pub currency : Pallet
  pub sovereign_account_of : A
  pub max_lockers : ℕ
  pub admin_origin : O
  pub max_remote_lock_consumers : ℕ

module _ {V A C O L E R W G M : Type 0} (converters : ConverterApi V A C)
    (checks : CheckApi V O L E) (routers : RouterApi V R) (w : LimitApi W)
    (weighers : WeigherApi W M G) (para_id : ℕ) where
  unfoldable pub pallet_xcm_config : PalletXcmConfig V A O E R G M
  pallet_xcm_config = record {
    send_xcm_origin = send_xcm_origin checks;
    xcm_router = xcm_router routers;
    execute_xcm_origin = execute_xcm_origin checks;
    xcm_execute_filter = λ origin message. false;
    xcm_teleport_filter = λ origin assets. true;
    xcm_reserve_transfer_filter = λ origin assets. false;
    weigher = weigher w weighers;
    universal_location = universal_location para_id;
    version_discovery_queue_size = 100;
    currency = balances;
    sovereign_account_of = location_to_account_id converters;
    max_lockers = 8;
    admin_origin = admin_origin checks;
    max_remote_lock_consumers = 0;
  }

  -- Whether pallet-xcm goes on with a call of an origin.
  module _ (allows : PalletXcmConfig V A O E R G M → RuntimeOrigin V → UserCall V M → Bool) where
    -- The documented behaviour: the origin has to have a location, which the filter has to contain
    -- together with the message or the assets, and these are at most `max_assets`.
    pub record IsUserApi (max_assets : ℕ) : Type 0 where
      pub sends_iff :
          (c : PalletXcmConfig V A O E R G M) (o : RuntimeOrigin V) (m : M)
          → (allows c o (send m) ≡ true)
            ↔ ((l : Location V) × (checks.ensure_origin c.send_xcm_origin o ≡ some l))
      pub executes_iff :
          (c : PalletXcmConfig V A O E R G M) (o : RuntimeOrigin V) (m : M)
          → (allows c o (execute m) ≡ true) ↔ (
              (l : Location V) × (checks.ensure_origin c.execute_xcm_origin o ≡ some l)
              × (c.xcm_execute_filter l m ≡ true))
      pub teleports_iff :
          (c : PalletXcmConfig V A O E R G M) (o : RuntimeOrigin V) (assets : List (Asset V))
          → (allows c o (teleport_assets assets) ≡ true) ↔ (
              (l : Location V) × (checks.ensure_origin c.execute_xcm_origin o ≡ some l)
              × (c.xcm_teleport_filter l assets ≡ true)
              × (length assets ≤ max_assets))
      pub reserves_iff :
          (c : PalletXcmConfig V A O E R G M) (o : RuntimeOrigin V) (assets : List (Asset V))
          → (allows c o (reserve_transfer_assets assets) ≡ true) ↔ (
              (l : Location V) × (checks.ensure_origin c.execute_xcm_origin o ≡ some l)
              × (c.xcm_reserve_transfer_filter l assets ≡ true)
              × (length assets ≤ max_assets))

    -- The chain itself and its accounts.
    abbrev pub IsLocal : RuntimeOrigin V → Type 0
    IsLocal root = Unit
    IsLocal (signed a) = Unit
    IsLocal relay = ⊥
    IsLocal (sibling_para id) = ⊥
    IsLocal (xcm_origin l) = ⊥

    abbrev pub IsOpenTo : ℕ → RuntimeOrigin V → UserCall V M → Type 0
    IsOpenTo max_assets o (send m) = IsLocal o
    IsOpenTo max_assets o (execute m) = ⊥
    IsOpenTo max_assets o (teleport_assets assets) = IsLocal o × (length assets ≤ max_assets)
    IsOpenTo max_assets o (reserve_transfer_assets assets) = ⊥

    module _ (voice : V) (behaves : IsCheckApi checks voice) (max_assets : ℕ)
        (laws : IsUserApi max_assets) where
      location-decides :
          (o : RuntimeOrigin V)
          → checks.ensure_origin (execute_xcm_origin checks) o
            ≡ or_else (account_of none o) (root_here o)
      unfolding execute_xcm_origin local_origin_to_location
      location-decides o = rw (behaves.ensure-xcm, behaves.convert-signed) refl

      -- Sending asks for the same location.
      send-execute :
          (o : RuntimeOrigin V)
          → checks.ensure_origin (send_xcm_origin checks) o
            ≡ checks.ensure_origin (execute_xcm_origin checks) o
      unfolding send_xcm_origin execute_xcm_origin
      send-execute o = refl

      located :
          (o : RuntimeOrigin V)
          → IsLocal o
          → (l : Location V) × (checks.ensure_origin (execute_xcm_origin checks) o ≡ some l)
      located root h = (here_location, location-decides root)
      located (signed a) h = (account_location a, location-decides (signed a))
      located relay h = absurd h
      located (sibling_para id) h = absurd h
      located (xcm_origin x) h = absurd h

      IsLocal-of_located :
          (o : RuntimeOrigin V) (l : Location V)
          → checks.ensure_origin (execute_xcm_origin checks) o ≡ some l
          → IsLocal o
      IsLocal-of_located root l h = tt
      IsLocal-of_located (signed a) l h = tt
      IsLocal-of_located relay l h = let e = sym (location-decides relay) ∙ h in absurd (cc)
      IsLocal-of_located (sibling_para id) l h =
          let e = sym (location-decides (sibling_para id)) ∙ h in absurd (cc)
      IsLocal-of_located (xcm_origin x) l h =
          let e = sym (location-decides (xcm_origin x)) ∙ h in absurd (cc)

      -- Of the calls of pallet-xcm the checks on origins, filters and the number of assets let
      -- through, for every account of this chain and the chain itself, the sending of messages and
      -- outgoing teleports of any assets, as many as one call may have; for nobody the execution of
      -- a message of his own or a transfer of reserve assets; and for the relay chain, the siblings
      -- and the origins of messages none of the four.
      pub allows_iff :
          (o : RuntimeOrigin V) (call : UserCall V M)
          → (allows pallet_xcm_config o call ≡ true) ↔ IsOpenTo max_assets o call
      unfolding pallet_xcm_config
      allows_iff o (send m) =
          let at = laws.sends_iff pallet_xcm_config o m in
          (
            λ h. let (l, e) = at.0 h in IsLocal-of_located o l (sym (send-execute o) ∙ e),
            λ h. let (l, e) = located o h in at.1 (l, send-execute o ∙ e),
          )
      allows_iff o (execute m) =
          let at = laws.executes_iff pallet_xcm_config o m in
          (λ h. let (l, e, f) = at.0 h in absurd (cc), λ x. absurd x)
      allows_iff o (teleport_assets assets) =
          let at = laws.teleports_iff pallet_xcm_config o assets in
          (
            λ h. let (l, e, f, few) = at.0 h in (IsLocal-of_located o l e, few),
            λ (h, few). let (l, e) = located o h in at.1 (l, e, refl, few),
          )
      allows_iff o (reserve_transfer_assets assets) =
          let at = laws.reserves_iff pallet_xcm_config o assets in
          (λ h. let (l, e, f, few) = at.0 h in absurd (cc), λ x. absurd x)
