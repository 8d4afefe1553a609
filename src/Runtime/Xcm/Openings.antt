-- ===== src/Runtime/Xcm/Openings.antt =====
-- The theorems on what the executor and pallet-xcm let through (runtime/src/configs/xcm_config.rs)
-- at concrete libraries: a call of a message is a number.
use mathlib.Core.Option.{some-injective}
use mathlib.Core.Path.{subst}
use subtrate.Base.{
  ℕ, ◌≤◌, ◌≡◌, refl, sym, ◌↔◌, Bool, true, false, ◌&&◌, leb, length, List, [], ◌∷◌, Option, none,
  some, arith,
}
use subtrate.Runtime.Figures.{Pair, weights}
use subtrate.Runtime.Xcm.Barrier.{Location, relay_location}
use subtrate.Runtime.Xcm.Origins.{RuntimeOrigin, signed}
use subtrate.Runtime.Xcm.Assets.{Asset}
use subtrate.Runtime.Xcm.Examples.{converters}
use subtrate.Runtime.Xcm.Samples.{routers, assets, checks, checks-IsCheckApi, ten_tokens}
use subtrate.Runtime.Xcm.Router.{Queue}
use subtrate.Runtime.Xcm.Figures.{Message, weighers}
use subtrate.Runtime.Xcm.Executor.{
  Instruction, receive_teleported_asset, reserve_asset_deposited, transact, alias_origin,
  universal_origin, lock_asset, exchange_asset, export_message, ExecutorConfig, ExecutorApi,
  IsExecutorApi, AllOf,
}
use subtrate.Runtime.Xcm.UserCalls.{
  UserCall, send, execute, teleport_assets, reserve_transfer_assets, PalletXcmConfig,
  pallet_xcm_config, IsUserApi, allows_iff,
}

abbrev all_of : {B : Type 0} → (B → Bool) → List B → Bool
all_of p [] = true
all_of p (b ∷ l) = p b && all_of p l

and_parts : (a b : Bool) → (a && b) ≡ true → (a ≡ true) × (b ≡ true)
and_parts a b h = ground arith

all_of_iff :
    {B : Type 0} (p : B → Bool) (l : List B) → (all_of p l ≡ true) ↔ AllOf (λ b. p b ≡ true) l
all_of_iff p [] = (λ h. tt, λ h. refl)
all_of_iff p (b ∷ l) =
    let rest = all_of_iff p l in
    (
      λ h. ((and_parts (p b) (all_of p l) h).0, rest.0 (and_parts (p b) (all_of p l) h).1),
      λ (h, hs). rw h (rest.1 hs),
    )

abbrev Reserves : Type 0
Reserves = Asset ℕ → Location ℕ → Bool

abbrev fits : ℕ → List (Asset ℕ) → Bool
fits most l = leb (length l) most

abbrev carries_out : ExecutorConfig ℕ ℕ Reserves → Location ℕ → Instruction ℕ ℕ → Bool
carries_out c o (receive_teleported_asset l) =
    all_of (λ a. c.is_teleporter a o) l && fits c.max_assets_into_holding l
carries_out c o (reserve_asset_deposited l) =
    all_of (λ a. c.is_reserve a o) l && fits c.max_assets_into_holding l
carries_out c o (transact y) = c.safe_call_filter y
carries_out c o (alias_origin l) = c.aliasers o l
carries_out c o (universal_origin j) = c.universal_aliases o j
carries_out c o (lock_asset a) = c.has_asset_locker
carries_out c o (exchange_asset l) = c.has_asset_exchanger
carries_out c o export_message = c.has_message_exporter

abbrev executor : ExecutorApi ℕ ℕ Reserves
executor = record { executes = carries_out; fits = fits }

assets_iff :
    (p : Asset ℕ → Bool) (most : ℕ) (l : List (Asset ℕ))
    → ((all_of p l && fits most l) ≡ true) ↔ (AllOf (λ a. p a ≡ true) l × (fits most l ≡ true))
assets_iff p most l =
    let all = all_of_iff p l in
    (
      λ h. let (x, y) = and_parts (all_of p l) (fits most l) h in (all.0 x, y),
      λ (x, y). rw (all.1 x) y,
    )

executor-IsExecutorApi : IsExecutorApi executor assets
executor-IsExecutorApi = record {
  teleports_iff = λ c o l. assets_iff (λ a. c.is_teleporter a o) c.max_assets_into_holding l;
  reserves_iff = λ c o l. assets_iff (λ a. c.is_reserve a o) c.max_assets_into_holding l;
  calls = λ c o y. refl;
  aliases = λ c o l. refl;
  universal = λ c o j. refl;
  locks = λ c o a h. h;
  exchanges = λ c o l h. h;
  exports = λ c o h. h;
}

abbrev relay : Location ℕ
relay = relay_location

abbrev Check : Type 0
Check = RuntimeOrigin ℕ → Bool

abbrev Locate : Type 0
Locate = RuntimeOrigin ℕ → Option (Location ℕ)

abbrev Route : Type 0
Route = Location ℕ → Option Queue

abbrev Config : Type 0
Config = PalletXcmConfig ℕ (Location ℕ → Option ℕ) Check Locate Route (Pair × ℕ) Message

abbrev filtered : Option (Location ℕ) → (Location ℕ → Bool) → Bool
filtered none p = false
filtered (some l) p = p l

filtered_iff :
    (o : Option (Location ℕ)) (p : Location ℕ → Bool)
    → (filtered o p ≡ true) ↔ ((l : Location ℕ) × (o ≡ some l) × (p l ≡ true))
filtered_iff none p = (λ h. absurd (cc), λ (l, e, h). absurd (cc))
filtered_iff (some l) p =
    (λ h. (l, refl, h), λ (k, e, h). subst (λ x. p x ≡ true) (sym (some-injective l k e)) h)

abbrev allowed : Config → RuntimeOrigin ℕ → UserCall ℕ Message → Bool
allowed c o (send m) = filtered (checks.ensure_origin c.send_xcm_origin o) (λ l. true)
allowed c o (execute m) =
    filtered (checks.ensure_origin c.execute_xcm_origin o) (λ l. c.xcm_execute_filter l m)
allowed c o (teleport_assets t) =
    filtered (checks.ensure_origin c.execute_xcm_origin o)
      (λ l. c.xcm_teleport_filter l t && leb (length t) 2)
allowed c o (reserve_transfer_assets t) =
    filtered (checks.ensure_origin c.execute_xcm_origin o)
      (λ l. c.xcm_reserve_transfer_filter l t && leb (length t) 2)

-- With at most two assets.
limited_iff :
    (o : Option (Location ℕ)) (p : Location ℕ → Bool) (n : ℕ)
    → (filtered o (λ l. p l && leb n 2) ≡ true)
      ↔ ((l : Location ℕ) × (o ≡ some l) × (p l ≡ true) × (n ≤ 2))
limited_iff o p n =
    let at = filtered_iff o (λ l. p l && leb n 2) in
    (
      λ h.
          let (l, e, both) = at.0 h in
          let (f, few) = and_parts (p l) (leb n 2) both in (l, e, f, ground arith),
      λ (l, e, f, few). at.1 (l, e, ground arith),
    )

sent_iff :
    (o : Option (Location ℕ)) → (filtered o (λ l. true) ≡ true) ↔ ((l : Location ℕ) × (o ≡ some l))
sent_iff o =
    let at = filtered_iff o (λ l. true) in
    (λ h. let (l, e, f) = at.0 h in (l, e), λ (l, e). at.1 (l, e, refl))

allowed-IsUserApi : IsUserApi converters checks routers weights weighers 7 allowed 2
allowed-IsUserApi = record {
  sends_iff = λ c o m. sent_iff (checks.ensure_origin c.send_xcm_origin o);
  executes_iff = λ c o m.
      filtered_iff (checks.ensure_origin c.execute_xcm_origin o) (λ l. c.xcm_execute_filter l m);
  teleports_iff = λ c o t.
      limited_iff (checks.ensure_origin c.execute_xcm_origin o) (λ l. c.xcm_teleport_filter l t)
        (length t);
  reserves_iff = λ c o t.
      limited_iff (checks.ensure_origin c.execute_xcm_origin o)
        (λ l. c.xcm_reserve_transfer_filter l t) (length t);
}

-- An account teleports ten tokens.
allows_iff_example :
    (allowed
        (pallet_xcm_config converters checks routers weights weighers 7)
        (signed 3)
        (teleport_assets (ten_tokens ∷ []))
      ≡ true)
    ↔ (Unit {0} × (1 ≤ 2))
allows_iff_example =
    allows_iff converters checks routers weights weighers 7 allowed 1 checks-IsCheckApi 2
      allowed-IsUserApi (signed 3) (teleport_assets (ten_tokens ∷ []))
