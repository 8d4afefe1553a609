-- ===== src/Runtime/Xcm/Examples.antt =====
-- The theorems on the configuration of XCM (runtime/src/configs/xcm_config.rs) at concrete
-- libraries: a barrier and a converter are the functions that they compute.
use mathlib.Core.Option
use subtrate.Base.{
  ℕ, ◌==◌, ◌≡◌, refl, ◌⊎◌, ◌↔◌, Bool, true, not, ◌&&◌, ◌||◌, ◌+◌, List, [], ◌∷◌, Option, none, some,
}
use subtrate.Frame.Dispatch.{AccountId}
use subtrate.Runtime.Xcm.Barrier.{Location, BarrierApi, relay_location, universal_location, barrier}
use subtrate.Runtime.Xcm.Admission.{Message, IsBarrierApi, IsRelayOrExecutive, barrier-admits_iff}
use subtrate.Runtime.Xcm.Origins.{
  OriginKind, native, sovereign_account, xcm, RuntimeOrigin, signed, sibling_para, xcm_origin,
  ConverterApi, xcm_origin_to_transact_dispatch_origin,
}
use subtrate.Runtime.Xcm.Dispatching.{
  by_shape, first_some, nothing, on, IsConverterApi, dispatch-acts_as,
}

-- A message is a number: 1 has weight credit, 2 pays, 3 declares an unpaid execution, and 9 is a
-- transfer to the relay chain.
abbrev Checks : Type 0
Checks = Location ℕ → ℕ → Bool

abbrev barriers : BarrierApi ℕ ℕ Checks
barriers = record {
  admits = λ b l m. b l m;
  trailing_set_topic_as_id = λ b. b;
  deny_then_try = λ d a l m. d l m && a l m;
  deny_reserve_transfer_to_relay_chain = λ l m. not (m == 9);
  either = λ a b l m. a l m || b l m;
  take_weight_credit = λ l m. m == 1;
  with_computed_origin = λ b u n. b;
  allow_top_level_paid_execution_from = λ from l m. from l && (m == 2);
  allow_explicit_unpaid_execution_from = λ from l m. from l && (m == 3);
}

abbrev messages : Message ℕ ℕ
messages = record {
  without_topic = λ m. m;
  has_credit = λ m. m == 1;
  computed = λ u n l m. some (l, m);
  is_paid = λ m. m == 2;
  is_unpaid = λ m. m == 3;
}

barriers-IsBarrierApi : IsBarrierApi barriers messages
barriers-IsBarrierApi = record {
  admits-trailing = λ b l m. refl;
  admits-deny = λ d a l m. refl;
  admits-either = λ a b l m. refl;
  admits-credit = λ l m. refl;
  admits-origin = λ b u n l m. refl;
  admits-paid = λ from l m. refl;
  admits-unpaid = λ from l m. refl;
}

-- The relay chain declares an unpaid execution.
barrier-admits_iff_example : (barriers.admits (barrier barriers 2000) relay_location 3 ≡ true) ↔ (
    (barriers.admits barriers.deny_reserve_transfer_to_relay_chain relay_location 3 ≡ true)
    × ((messages.has_credit 3 ≡ true)
        ⊎ ((origin : Location ℕ) × (rest : ℕ) × (messages.computed
                (universal_location 2000)
                8
                relay_location
                3
              ≡ some (origin, rest))
            × ((messages.is_paid rest ≡ true)
                ⊎ ((messages.is_unpaid rest ≡ true) × IsRelayOrExecutive origin)))))
barrier-admits_iff_example =
    barrier-admits_iff barriers messages barriers-IsBarrierApi 2000 relay_location 3

abbrev pub accounts_of : List (Location ℕ → Option AccountId) → Location ℕ → Option AccountId
accounts_of [] l = none
accounts_of (a ∷ rest) l = first_some (a l) (accounts_of rest l)

abbrev pub Converts : Type 0
Converts = Location ℕ → OriginKind → Option (RuntimeOrigin ℕ)

abbrev pub origins_of : List Converts → Converts
origins_of [] l k = none
origins_of (c ∷ rest) l k = first_some (c l k) (origins_of rest l k)

abbrev pub converters : ConverterApi ℕ (Location ℕ → Option AccountId) Converts
converters = record {
  convert_location = λ a l. a l;
  parent_is_preset = by_shape (some 7) nothing nothing;
  sibling_parachain_converts_via = by_shape none (λ id. some (1000 + id)) nothing;
  account_id32_aliases = λ network. by_shape none nothing (λ a. some a);
  account_tuple = accounts_of;
  convert_origin = λ c l k. c l k;
  sovereign_signed_via_location = λ a l k. on sovereign_account k (Option.map signed (a l));
  relay_chain_as_native = λ r l k. on native k (by_shape (some r) nothing nothing l);
  sibling_parachain_as_native =
      λ l k. on native k (by_shape none (λ id. some (sibling_para id)) nothing l);
  signed_account_id32_as_native =
      λ network l k. on native k (by_shape none nothing (λ a. some (signed a)) l);
  xcm_passthrough = λ l k. on xcm k (some (xcm_origin l));
  origin_tuple = origins_of;
}

pub converters-IsConverterApi : IsConverterApi converters 7 (λ id. 1000 + id)
converters-IsConverterApi = record {
  account-nil = λ l. refl;
  account-cons = λ a rest l. refl;
  account-parent = λ l. refl;
  account-sibling = λ l. refl;
  account-local = λ l. refl;
  origin-nil = λ l k. refl;
  origin-cons = λ c rest l k. refl;
  origin-sovereign = λ a l k. refl;
  origin-relay = λ r l k. refl;
  origin-sibling = λ l k. refl;
  origin-local = λ l k. refl;
  origin-xcm = λ l k. refl;
}

dispatch-acts_as_example :
    converters.convert_origin
      (xcm_origin_to_transact_dispatch_origin converters)
      relay_location
      sovereign_account
    ≡ some (signed 7)
dispatch-acts_as_example =
    dispatch-acts_as converters 7 (λ id. 1000 + id) converters-IsConverterApi relay_location
      sovereign_account
