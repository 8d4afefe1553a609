-- ===== src/Runtime/Xcm/Samples.antt =====
-- The theorems on checks, assets and routes over XCM (runtime/src/configs) at concrete libraries:
-- a check, a router or a transactor is the function that it computes.
use package.native.Mathlib.Decide.{ℕ_discrete}
use mathlib.Core.HLevel.{Discrete}
use subtrate.Base.{
  leb, if◌then◌else◌, ℕ, ◌+◌, ◌≡◌, refl, ◌↔◌, Bool, true, false, ◌||◌, [], ◌∷◌, ◌++◌, Option, none,
  some, arith,
}
use subtrate.Frame.Dispatch.{AccountId}
use subtrate.Runtime.Constants.{existential_deposit}
use subtrate.Runtime.Xcm.Barrier.{
  BodyId, defense, Junction, parachain, plurality, Location, relay_location,
}
use subtrate.Runtime.Xcm.Origins.{
  native, xcm, RuntimeOrigin, signed, sibling_para, xcm_origin_to_transact_dispatch_origin,
}
use subtrate.Runtime.Xcm.Dispatching.{by_shape, first_some, nothing}
use subtrate.Runtime.Xcm.Checks.{
  CheckApi, IsCheckApi, collator_selection_update_origin, send_xcm_origin, is_root, is_xcm,
  account_of, or_else, root_here,
}
use subtrate.Runtime.Xcm.Privileged.{Passes, IsStakingAdmin, update_origin_iff}
use subtrate.Runtime.Xcm.Local.{account_location, local_round_trip}
use subtrate.Runtime.Xcm.Assets.{
  Asset, Fungibility, fungible, non_fungible, AssetApi, IsAssetApi, local_asset_transactor, reserve,
  IsAccountOf, reserve_credit_iff,
}
use subtrate.Runtime.Xcm.Router.{Queue, xcmp, ump, RouterApi, IsRouterApi, xcm_router, route_iff}
use subtrate.Runtime.Xcm.Messages.{
  AggregateMessageOrigin, here, parent, sibling, MessageApi, IsMessageApi, sender, arrives,
  queue_change_handler, queue_paused_query, reply_returns,
}
use subtrate.Runtime.Xcm.Examples.{converters, converters-IsConverterApi}

abbrev sibling_account : ℕ → AccountId
sibling_account id = 1000 + id

BodyId-discrete : Discrete (BodyId ℕ)
BodyId-discrete = hlevel ℕ_discrete

Junction-discrete : Discrete (Junction ℕ)
Junction-discrete = hlevel (ℕ_discrete, BodyId-discrete)

pub Location-discrete : Discrete (Location ℕ)
Location-discrete = hlevel (ℕ_discrete, Junction-discrete)

abbrev pub decided : {A : Type 0} → Dec A → Bool
decided (yes p) = true
decided (no n) = false

decided_iff : {A : Type 0} (d : Dec A) → (decided d ≡ true) ↔ A
decided_iff (yes p) = (λ h. p, λ a. refl)
decided_iff (no n) = (λ h. absurd (cc), λ a. absurd (n a))

-- Part 1 is the voice.
abbrev voice_location : Location ℕ → BodyId ℕ → ℕ → Location ℕ
voice_location prefix body part = record {
  parents = prefix.parents;
  interior = prefix.interior ++ plurality body part ∷ [];
}

abbrev pub checks :
    CheckApi ℕ
      (RuntimeOrigin ℕ → Bool)
      (RuntimeOrigin ℕ → Option (Location ℕ))
      (RuntimeOrigin ℕ → Option (Location ℕ))
checks = record {
  try_origin = λ check o. check o;
  ensure_root = is_root;
  ensure_xcm = is_xcm;
  either_of_diverse = λ a b o. a o || b o;
  is_voice_of_body = λ prefix body l. decided (Location-discrete l (voice_location prefix body 1));
  try_convert = λ convert o. convert o;
  signed_to_account_id32 = account_of;
  ensure_xcm_origin = λ convert o. or_else (convert o) (root_here o);
  ensure_origin = λ ensure o. ensure o;
}

pub checks-IsCheckApi : IsCheckApi checks 1
checks-IsCheckApi = record {
  try-root = λ o. refl;
  try-xcm = λ from o. refl;
  try-either = λ a b o. refl;
  voice_iff = λ prefix l body. decided_iff (Location-discrete l (voice_location prefix body 1));
  convert-signed = λ network o. refl;
  ensure-xcm = λ c o. refl;
}

abbrev staking_admin : Location ℕ
staking_admin = record { parents = 1; interior = plurality defense 1 ∷ [] }

update_origin_iff_example :
    Passes converters checks (collator_selection_update_origin checks) xcm staking_admin
    ↔ ((xcm ≡ xcm) × IsStakingAdmin 1 staking_admin)
update_origin_iff_example =
    update_origin_iff converters 7 sibling_account converters-IsConverterApi checks 1
      checks-IsCheckApi xcm staking_admin

local_round_trip_example :
    (checks.ensure_origin (send_xcm_origin checks) (signed 3) ≡ some (account_location 3)) ↔ (
      converters.convert_origin
        (xcm_origin_to_transact_dispatch_origin converters)
        (account_location 3)
        native
      ≡ some (signed 3))
local_round_trip_example =
    local_round_trip converters 7 sibling_account converters-IsConverterApi checks 1
      checks-IsCheckApi 3 (account_location 3)

abbrev picked : {P : Type 0} → Dec P → Fungibility ℕ → Option ℕ
picked (yes same) (fungible n) = some n
picked (yes same) (non_fungible v) = none
picked (no other) f = none

abbrev amount_of : Asset ℕ → Location ℕ → Option ℕ
amount_of asset l = picked (Location-discrete asset.id l) asset.amount

abbrev minted : Option (AccountId × ℕ) → Option (AccountId × ℕ)
minted none = none
minted (some (to, n)) = if leb existential_deposit n then some (to, n) else none

minted_iff :
    (o : Option (AccountId × ℕ)) (to n : ℕ)
    → (minted o ≡ some (to, n)) ↔ ((o ≡ some (to, n)) × (leb existential_deposit n ≡ true))
minted_iff none to n = (λ h. absurd (cc), λ h. absurd (cc (h.0)))
minted_iff (some (a, m)) to n = (λ h. ground arith, λ h. ground arith)

abbrev paired : Option ℕ → Option AccountId → Option (AccountId × ℕ)
paired none to = none
paired (some n) none = none
paired (some n) (some to) = some (to, n)

abbrev pub assets :
    AssetApi ℕ
      (Location ℕ → Option AccountId)
      (Asset ℕ → Location ℕ → Bool)
      (Asset ℕ → Option ℕ)
      (Asset ℕ → Location ℕ → Option (AccountId × ℕ))
assets = record {
  is_reserve = λ filter asset origin. filter asset origin;
  native_asset = λ asset origin. decided (Location-discrete asset.id origin);
  is_concrete = λ l asset. amount_of asset l;
  fungible_adapter = λ match convert asset who. paired (match asset) (convert who);
  credits = λ deposit asset who. minted (deposit asset who);
  mints = λ to n. leb existential_deposit n;
}

paired_iff :
    (n : Option ℕ) (to : Option AccountId) (m a : ℕ)
    → (paired n to ≡ some (a, m)) ↔ ((n ≡ some m) × (to ≡ some a))
paired_iff none to m a = (λ h. absurd (cc), λ h. absurd (cc (h.0)))
paired_iff (some n) none m a = (λ h. absurd (cc), λ h. absurd (cc (h.1)))
paired_iff (some n) (some to) m a = (λ h. (ground arith, ground arith), λ h. ground arith)

picked_iff :
    {P : Type 0} (d : Dec P) (f : Fungibility ℕ) (n : ℕ)
    → (picked d f ≡ some n) ↔ (P × (f ≡ fungible n))
picked_iff (yes same) (fungible m) n = (λ h. (same, ground arith), λ h. ground arith)
picked_iff (yes same) (non_fungible v) n = (λ h. absurd (cc), λ h. absurd (cc (h.1)))
picked_iff (no other) f n = (λ h. absurd (cc), λ h. absurd (other h.0))

amount_iff :
    (asset : Asset ℕ) (l : Location ℕ) (n : ℕ)
    → (amount_of asset l ≡ some n) ↔ ((asset.id ≡ l) × (asset.amount ≡ fungible n))
amount_iff asset l n = picked_iff (Location-discrete asset.id l) asset.amount n

pub assets-IsAssetApi : IsAssetApi converters assets
assets-IsAssetApi = record {
  reserve_iff = λ asset origin. decided_iff (Location-discrete asset.id origin);
  credits_iff = λ l a asset who to n.
      let pair = paired_iff (amount_of asset l) (a who) n to in
      let amount = amount_iff asset l n in
      let mint = minted_iff (paired (amount_of asset l) (a who)) to n in
      (
        λ h.
            let (p, z) = mint.0 h in
            let (x, y) = pair.0 p in let (id, f) = amount.0 x in (id, f, y, z),
        λ (id, f, y, z). mint.1 (pair.1 (amount.1 (id, f), y), z),
      );
}

abbrev pub ten_tokens : Asset ℕ
ten_tokens = record { id = relay_location; amount = fungible 10 }

-- The smallest amount that a fresh account takes.
abbrev tokens : Asset ℕ
tokens = record { id = relay_location; amount = fungible 1000000000 }

abbrev relay : Location ℕ
relay = relay_location

abbrev beneficiary : Location ℕ
beneficiary = account_location 3

reserve_credit_iff_example :
    ((assets.is_reserve (reserve converters assets) tokens relay ≡ true)
      × (assets.credits (local_asset_transactor converters assets) tokens beneficiary
          ≡ some (3, 1000000000)))
    ↔ ((relay ≡ relay_location)
        × (tokens ≡ record { id = relay_location; amount = fungible 1000000000 })
        × IsAccountOf 7 sibling_account beneficiary 3
        × (assets.mints 3 1000000000 ≡ true))
reserve_credit_iff_example =
    reserve_credit_iff converters 7 sibling_account converters-IsConverterApi assets
      assets-IsAssetApi tokens relay beneficiary 3 1000000000

abbrev pub routers : RouterApi ℕ (Location ℕ → Option Queue)
routers = record {
  route = λ send l. send l;
  parent_as_ump = by_shape (some ump) nothing nothing;
  xcmp_queue = by_shape none (λ id. some (xcmp id)) nothing;
  either = λ a b l. first_some (a l) (b l);
  with_unique_topic = λ send. send;
}

routers-IsRouterApi : IsRouterApi routers
routers-IsRouterApi = record {
  route-ump = λ l. refl;
  route-xcmp = λ l. refl;
  route-either = λ a b l. refl;
  route-topic = λ send l. refl;
}

abbrev neighbour : Location ℕ
neighbour = record { parents = 1; interior = parachain 2001 ∷ [] }

route_iff_example : (routers.route (xcm_router routers) neighbour ≡ some (xcmp 2001)) ↔ (
    converters.convert_origin (xcm_origin_to_transact_dispatch_origin converters) neighbour native
    ≡ some (sibling_para 2001))
route_iff_example =
    route_iff converters 7 sibling_account converters-IsConverterApi routers routers-IsRouterApi
      (xcmp 2001) neighbour

-- Only siblings are told of.
abbrev narrowed : AggregateMessageOrigin → Option ℕ
narrowed here = none
narrowed parent = none
narrowed (sibling id) = some id

abbrev location_of : AggregateMessageOrigin → Location ℕ
location_of here = record { parents = 0; interior = [] }
location_of parent = relay_location
location_of (sibling id) = record { parents = 1; interior = parachain id ∷ [] }

abbrev messages :
    MessageApi ℕ
      (Unit {0})
      (Unit {0})
      AggregateMessageOrigin
      (ℕ → AggregateMessageOrigin)
      (AggregateMessageOrigin → Option ℕ)
      (AggregateMessageOrigin → Location ℕ)
messages = record {
  message_queue = tt;
  xcmp_queue = tt;
  enqueue_with_origin = λ q o. o;
  enqueued = λ o. o;
  para_id_to_sibling = sibling;
  transform_origin = λ q f. f;
  enqueued_from = λ f id. f id;
  narrow_origin_to_sibling = λ x. narrowed;
  told_of = λ f o. f o;
  process_xcm_message = location_of;
  executes_at = λ f o. f o;
}

messages-IsMessageApi : IsMessageApi messages
messages-IsMessageApi = record {
  enqueued-with = λ q o. refl;
  para_id-sibling = λ id. refl;
  enqueued-from = λ q f id. refl;
  told-parent = λ x. refl;
  told-sibling = λ x id. refl;
  executes-parent = refl;
  executes-sibling = λ id. refl;
}

reply_returns_example :
    (converters.convert_origin
        (xcm_origin_to_transact_dispatch_origin converters)
        (sender messages (xcmp 2001))
        native
      ≡ some (sibling_para 2001))
    × (routers.route (xcm_router routers) (sender messages (xcmp 2001)) ≡ some (xcmp 2001))
    × (messages.told_of (queue_change_handler messages) (arrives messages (xcmp 2001)) ≡ some 2001)
    × (messages.told_of (queue_paused_query messages) (arrives messages (xcmp 2001)) ≡ some 2001)
reply_returns_example =
    reply_returns messages messages-IsMessageApi converters 7 sibling_account
      converters-IsConverterApi routers routers-IsRouterApi (xcmp 2001)
