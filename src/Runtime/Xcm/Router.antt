-- ===== src/Runtime/Xcm/Router.antt =====
-- Where XCM messages are sent (`XcmRouter` of runtime/src/configs/xcm_config.rs), from the routers
-- of the libraries, which a tuple tries in order, against the origins of those that arrive.
use subtrate.Base.{
  ℕ, ◌==◌, ◌≡◌, refl, sym, ◌∙◌, ◌↔◌, Bool, true, false, List, [], ◌∷◌, Option, none, some,
  if◌then◌else◌,
}
use subtrate.Frame.Dispatch.{AccountId}
use subtrate.Runtime.Xcm.Barrier.{
  Junction, parachain, account_id32, plurality, another_junction, Location,
}
use subtrate.Runtime.Xcm.Origins.{
  native, RuntimeOrigin, signed, relay, sibling_para, ConverterApi,
  xcm_origin_to_transact_dispatch_origin,
}
use subtrate.Runtime.Xcm.Dispatching.{
  IsConverterApi, shape, by_shape, nothing, first_some, shape-first_two, dispatch-acts_as,
}

-- The queue that takes a message: upward to the relay chain, or across to a sibling parachain.
pub data Queue : Type 0 where
  ump : Queue
  xcmp : ℕ → Queue

-- The routers, of type `W`, and the queue of each for a destination that it can reach.
pub record RouterApi (V W : Type 0) : Type 0 where
  pub route : W → Location V → Option Queue
  pub parent_as_ump : W
  pub xcmp_queue : W
  pub either : W → W → W
  pub with_unique_topic : W → W

pub record IsRouterApi {V W : Type 0} (api : RouterApi V W) : Type 0 where
  pub route-ump :
      (l : Location V) → api.route api.parent_as_ump l ≡ by_shape (some ump) nothing nothing l
  pub route-xcmp :
      (l : Location V) → api.route api.xcmp_queue l ≡ by_shape none (λ id. some (xcmp id)) nothing l
  pub route-either :
      (a b : W) (l : Location V)
      → api.route (api.either a b) l ≡ first_some (api.route a l) (api.route b l)
  pub route-topic : (w : W) (l : Location V) → api.route (api.with_unique_topic w) l ≡ api.route w l

unfoldable pub xcm_router : {V W : Type 0} → RouterApi V W → W
xcm_router api = api.with_unique_topic (api.either api.parent_as_ump api.xcmp_queue)

-- As which chain a queue's destination is known here.
abbrev pub chain_of : {V : Type 0} → Queue → RuntimeOrigin V
chain_of ump = relay
chain_of (xcmp id) = sibling_para id

-- A queue and an origin are made together.
abbrev Together : {V : Type 0} → Queue → Option Queue → Option (RuntimeOrigin V) → Type 0
Together q x y = (x ≡ some q) ↔ (y ≡ some (chain_of q))

if-Together :
    {V : Type 0} (q : Queue) (b : Bool) (x : Option Queue) (y : Option (RuntimeOrigin V))
    → Together q x y
    → Together q (if b then x else none) (if b then y else none)
if-Together q true x y t = t
if-Together q false x y t = (λ h. absurd (cc), λ h. absurd (cc))

module _ {V : Type 0} where
  relay-Together : (q : Queue) → Together {V = V} q (some ump) (some relay)
  relay-Together ump = (λ h. refl, λ h. refl)
  relay-Together (xcmp id) = (λ h. absurd (cc), λ h. absurd (cc))

  sibling-Together :
      (q : Queue) (id : ℕ) → Together {V = V} q (some (xcmp id)) (some (sibling_para id))
  sibling-Together ump id = (λ h. absurd (cc), λ h. absurd (cc))
  sibling-Together (xcmp n) id = (λ h. cc, λ h. cc)

  account-Together : (q : Queue) (who : AccountId) → Together {V = V} q none (some (signed who))
  account-Together ump who = (λ h. absurd (cc), λ h. absurd (cc))
  account-Together (xcmp n) who = (λ h. absurd (cc), λ h. absurd (cc))

  nothing-Together : (q : Queue) → Together {V = V} q none none
  nothing-Together q = (λ h. absurd (cc), λ h. absurd (cc))

  shape-Together :
      (q : Queue) (p : ℕ) (js : List (Junction V))
      → Together {V = V} q
          (shape (some ump) (λ id. some (xcmp id)) nothing p js)
          (shape (some relay) (λ id. some (sibling_para id)) (λ who. some (signed who)) p js)
  shape-Together q p [] = if-Together q (p == 1) _ _ (relay-Together q)
  shape-Together q p (parachain id ∷ []) = if-Together q (p == 1) _ _ (sibling-Together q id)
  shape-Together q p (account_id32 none who ∷ []) =
      if-Together q (p == 0) _ _ (account-Together q who)
  shape-Together q p (parachain id ∷ j ∷ js) = nothing-Together q
  shape-Together q p (account_id32 none who ∷ j ∷ js) = nothing-Together q
  shape-Together q p (account_id32 (some n) who ∷ js) = nothing-Together q
  shape-Together q p (plurality b part ∷ js) = nothing-Together q
  shape-Together q p (another_junction v ∷ js) = nothing-Together q

module _ {V A C W : Type 0} (converters : ConverterApi V A C) (preset : AccountId)
    (sibling : ℕ → AccountId) (laws : IsConverterApi converters preset sibling)
    (api : RouterApi V W) (routes : IsRouterApi api) where
  route_shape :
      (l : Location V)
      → api.route (xcm_router api) l ≡ by_shape (some ump) (λ id. some (xcmp id)) nothing l
  unfolding xcm_router
  route_shape l = simp (
    routes.route-topic, routes.route-either, routes.route-ump, routes.route-xcmp, shape-first_two,
  )

  -- A message can be sent to a location exactly by the queue to the chain, the relay chain or a
  -- sibling parachain, as which messages from that location act here natively; to no other
  -- location, accounts of this chain included, can one be sent.
  pub route_iff :
      (q : Queue) (l : Location V)
      → (api.route (xcm_router api) l ≡ some q) ↔ (
          converters.convert_origin (xcm_origin_to_transact_dispatch_origin converters) l native
          ≡ some (chain_of q))
  route_iff q l =
      let ends = shape-Together {V = V} q l.parents l.interior in
      let acts = dispatch-acts_as converters preset sibling laws l native in
      (λ h. acts ∙ ends.0 (sym (route_shape l) ∙ h), λ h. route_shape l ∙ ends.1 (sym acts ∙ h))
