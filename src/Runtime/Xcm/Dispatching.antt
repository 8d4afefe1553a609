-- ===== src/Runtime/Xcm/Dispatching.antt =====
-- As whom an XCM message dispatches a call (`XcmOriginToTransactDispatchOrigin` of
-- runtime/src/configs/xcm_config.rs).
use mathlib.Core.Option
use subtrate.Base.{
  ℕ, ◌==◌, ◌≡◌, ◌⊎◌, inl, inr, refl, ◌∙◌, ap, Bool, true, false, List, [], ◌∷◌, Option, none, some,
  if◌then◌else◌,
}
use subtrate.Frame.Dispatch.{AccountId}
use subtrate.Runtime.Xcm.Barrier.{
  Junction, parachain, account_id32, plurality, another_junction, Location,
}
use subtrate.Runtime.Xcm.Origins.{
  OriginKind, native, sovereign_account, superuser, xcm, RuntimeOrigin, signed, relay, sibling_para,
  xcm_origin, ConverterApi, xcm_origin_to_transact_dispatch_origin, location_to_account_id,
}

-- A choice by the shape of a location: the relay chain, a sibling parachain with its identifier,
-- an account of this chain that is named without a network, and nothing for any other.
module _ {V X : Type 0} where
  abbrev pub shape :
      Option X → (ℕ → Option X) → (AccountId → Option X) → ℕ → List (Junction V) → Option X
  shape r s a p [] = if p == 1 then r else none
  shape r s a p (parachain id ∷ []) = if p == 1 then s id else none
  shape r s a p (account_id32 none who ∷ []) = if p == 0 then a who else none
  shape r s a p (parachain id ∷ j ∷ js) = none
  shape r s a p (account_id32 none who ∷ j ∷ js) = none
  shape r s a p (account_id32 (some n) who ∷ js) = none
  shape r s a p (plurality b part ∷ js) = none
  shape r s a p (another_junction v ∷ js) = none

  abbrev pub by_shape : Option X → (ℕ → Option X) → (AccountId → Option X) → Location V → Option X
  by_shape r s a l = shape r s a l.parents l.interior

abbrev pub first_some : {X : Type 0} → Option X → Option X → Option X
first_some none o = o
first_some (some x) o = some x

abbrev pub nothing : {X Y : Type 0} → X → Option Y
nothing x = none

module _ {X : Type 0} where
  first_some-none : (o : Option X) → first_some o none ≡ o
  first_some-none none = refl
  first_some-none (some x) = refl

  if-none : (b : Bool) → Path (Option X) (if b then none else none) none
  if-none true = refl
  if-none false = refl

  map-if :
      {Y : Type 0} (f : X → Y) (b : Bool) (o : Option X)
      → Option.map f (if b then o else none) ≡ (if b then Option.map f o else none)
  map-if f true o = refl
  map-if f false o = refl

abbrev pub OnSome : {X : Type 0} → (X → Type 0) → Option X → Type 0
OnSome P none = Unit
OnSome P (some x) = P x

if-OnSome :
    {X : Type 0} (P : X → Type 0) (b : Bool) (o : Option X)
    → OnSome P o
    → OnSome P (if b then o else none)
if-OnSome P true o h = h
if-OnSome P false o h = tt

module _ {V X : Type 0} where
  -- The three choices together, whatever their order is.
  shape-first_some :
      (r : Option X) (s : ℕ → Option X) (a : AccountId → Option X) (p : ℕ) (js : List (Junction V))
      → first_some
          (shape r nothing nothing p js)
          (first_some (shape none s nothing p js) (first_some (shape none nothing a p js) none))
        ≡ shape r s a p js
  shape-first_some r s a p [] =
      simp (if-none (p == 1), first_some-none (if p == 1 then r else none))
  shape-first_some r s a p (parachain id ∷ []) =
      simp (if-none (p == 1), first_some-none (if p == 1 then s id else none))
  shape-first_some r s a p (account_id32 none who ∷ []) =
      simp (if-none (p == 0), first_some-none (if p == 0 then a who else none))
  shape-first_some r s a p (parachain id ∷ j ∷ js) = refl
  shape-first_some r s a p (account_id32 none who ∷ j ∷ js) = refl
  shape-first_some r s a p (account_id32 (some n) who ∷ js) = refl
  shape-first_some r s a p (plurality b part ∷ js) = refl
  shape-first_some r s a p (another_junction v ∷ js) = refl

  pub shape-first_two :
      (r : Option X) (s : ℕ → Option X) (p : ℕ) (js : List (Junction V))
      → first_some (shape r nothing nothing p js) (shape none s nothing p js)
        ≡ shape r s nothing p js
  shape-first_two r s p [] = simp (if-none (p == 1), first_some-none (if p == 1 then r else none))
  shape-first_two r s p (parachain id ∷ []) = simp (if-none (p == 1))
  shape-first_two r s p (account_id32 none who ∷ []) = simp (if-none (p == 0))
  shape-first_two r s p (parachain id ∷ j ∷ js) = refl
  shape-first_two r s p (account_id32 none who ∷ j ∷ js) = refl
  shape-first_two r s p (account_id32 (some n) who ∷ js) = refl
  shape-first_two r s p (plurality b part ∷ js) = refl
  shape-first_two r s p (another_junction v ∷ js) = refl

  -- A choice by shape that is made is one of the three.
  shape-OnSome :
      (P : X → Type 0) (r : Option X) (s : ℕ → Option X) (a : AccountId → Option X) (p : ℕ)
      → (js : List (Junction V)) → OnSome P r
      → ((id : ℕ) → OnSome P (s id))
      → ((who : AccountId) → OnSome P (a who))
      → OnSome P (shape r s a p js)
  shape-OnSome P r s a p [] pr ps pa = if-OnSome P (p == 1) r pr
  shape-OnSome P r s a p (parachain id ∷ []) pr ps pa = if-OnSome P (p == 1) (s id) (ps id)
  shape-OnSome P r s a p (account_id32 none who ∷ []) pr ps pa =
      if-OnSome P (p == 0) (a who) (pa who)
  shape-OnSome P r s a p (parachain id ∷ j ∷ js) pr ps pa = tt
  shape-OnSome P r s a p (account_id32 none who ∷ j ∷ js) pr ps pa = tt
  shape-OnSome P r s a p (account_id32 (some n) who ∷ js) pr ps pa = tt
  shape-OnSome P r s a p (plurality b part ∷ js) pr ps pa = tt
  shape-OnSome P r s a p (another_junction v ∷ js) pr ps pa = tt

  map-shape :
      {Y : Type 0} (f : X → Y) (r : Option X) (s : ℕ → Option X) (a : AccountId → Option X) (p : ℕ)
      → (js : List (Junction V))
      → Option.map f (shape r s a p js)
        ≡ shape (Option.map f r) (λ id. Option.map f (s id)) (λ who. Option.map f (a who)) p js
  map-shape f r s a p [] = map-if f (p == 1) r
  map-shape f r s a p (parachain id ∷ []) = map-if f (p == 1) (s id)
  map-shape f r s a p (account_id32 none who ∷ []) = map-if f (p == 0) (a who)
  map-shape f r s a p (parachain id ∷ j ∷ js) = refl
  map-shape f r s a p (account_id32 none who ∷ j ∷ js) = refl
  map-shape f r s a p (account_id32 (some n) who ∷ js) = refl
  map-shape f r s a p (plurality b part ∷ js) = refl
  map-shape f r s a p (another_junction v ∷ js) = refl

abbrev pub on : {X : Type 0} → OriginKind → OriginKind → Option X → Option X
on native native o = o
on sovereign_account sovereign_account o = o
on xcm xcm o = o
on superuser superuser o = o
on k k' o = none

module _ {V A C : Type 0} (api : ConverterApi V A C) (preset : AccountId)
    (sibling : ℕ → AccountId) where
  -- The documented behaviour of the converters, with the accounts of the relay chain and of the
  -- sibling parachains.
  pub record IsConverterApi : Type 0 where
    pub account-nil : (l : Location V) → api.convert_location (api.account_tuple []) l ≡ none
    pub account-cons :
        (a : A) (rest : List A) (l : Location V)
        → api.convert_location (api.account_tuple (a ∷ rest)) l
          ≡ first_some (api.convert_location a l) (api.convert_location (api.account_tuple rest) l)
    pub account-parent :
        (l : Location V)
        → api.convert_location api.parent_is_preset l ≡ by_shape (some preset) nothing nothing l
    pub account-sibling :
        (l : Location V)
        → api.convert_location api.sibling_parachain_converts_via l
          ≡ by_shape none (λ id. some (sibling id)) nothing l
    pub account-local :
        (l : Location V)
        → api.convert_location (api.account_id32_aliases none) l
          ≡ by_shape none nothing (λ a. some a) l
    pub origin-nil :
        (l : Location V) (k : OriginKind) → api.convert_origin (api.origin_tuple []) l k ≡ none
    pub origin-cons :
        (c : C) (rest : List C) (l : Location V) (k : OriginKind)
        → api.convert_origin (api.origin_tuple (c ∷ rest)) l k
          ≡ first_some (api.convert_origin c l k) (api.convert_origin (api.origin_tuple rest) l k)
    pub origin-sovereign :
        (a : A) (l : Location V) (k : OriginKind)
        → api.convert_origin (api.sovereign_signed_via_location a) l k
          ≡ on sovereign_account k (Option.map signed (api.convert_location a l))
    pub origin-relay :
        (r : RuntimeOrigin V) (l : Location V) (k : OriginKind)
        → api.convert_origin (api.relay_chain_as_native r) l k
          ≡ on native k (by_shape (some r) nothing nothing l)
    pub origin-sibling :
        (l : Location V) (k : OriginKind)
        → api.convert_origin api.sibling_parachain_as_native l k
          ≡ on native k (by_shape none (λ id. some (sibling_para id)) nothing l)
    pub origin-local :
        (l : Location V) (k : OriginKind)
        → api.convert_origin (api.signed_account_id32_as_native none) l k
          ≡ on native k (by_shape none nothing (λ a. some (signed a)) l)
    pub origin-xcm :
        (l : Location V) (k : OriginKind)
        → api.convert_origin api.xcm_passthrough l k ≡ on xcm k (some (xcm_origin l))

  -- As whom a message of a kind from a location acts.
  abbrev pub acts_as : OriginKind → Location V → Option (RuntimeOrigin V)
  acts_as native l =
      by_shape (some relay) (λ id. some (sibling_para id)) (λ who. some (signed who)) l
  acts_as sovereign_account l =
      by_shape (some (signed preset)) (λ id. some (signed (sibling id))) (λ who. some (signed who))
        l
  acts_as superuser l = none
  acts_as xcm l = some (xcm_origin l)

  -- A message that does not come for itself acts as an account or a chain.
  pub acts_as-OnSome :
      (P : RuntimeOrigin V → Type 0)
      → P relay
      → ((id : ℕ) → P (sibling_para id))
      → ((who : AccountId) → P (signed who))
      → (k : OriginKind) (l : Location V) → OnSome P (acts_as k l) ⊎ (k ≡ xcm)
  acts_as-OnSome P pr ps pa native l = inl (shape-OnSome P _ _ _ l.parents l.interior pr ps pa)
  acts_as-OnSome P pr ps pa sovereign_account l =
      inl (shape-OnSome P _ _ _ l.parents l.interior (pa preset) (λ id. pa (sibling id)) pa)
  acts_as-OnSome P pr ps pa superuser l = inl tt
  acts_as-OnSome P pr ps pa xcm l = inr refl

  module _ (laws : IsConverterApi) where
    pub account_of-location :
        (l : Location V)
        → api.convert_location (location_to_account_id api) l
          ≡ by_shape (some preset) (λ id. some (sibling id)) (λ who. some who) l
    unfolding location_to_account_id
    account_of-location l = simp (
      laws.account-cons, laws.account-nil, laws.account-parent, laws.account-sibling,
      laws.account-local, shape-first_some,
    )

    -- The converters of origins, in their order.
    unrolled :
        (l : Location V) (k : OriginKind)
        → api.convert_origin (xcm_origin_to_transact_dispatch_origin api) l k
          ≡ first_some
              (on sovereign_account k
                (Option.map signed (api.convert_location (location_to_account_id api) l)))
              (first_some (on native k (by_shape (some relay) nothing nothing l)) (
                first_some (on native k (by_shape none (λ id. some (sibling_para id)) nothing l)) (
                  first_some
                    (on native k (by_shape none nothing (λ a. some (signed a)) l))
                    (first_some (on xcm k (some (xcm_origin l))) none))))
    unfolding xcm_origin_to_transact_dispatch_origin
    unrolled l k = simp (
      laws.origin-cons, laws.origin-nil, laws.origin-sovereign, laws.origin-relay,
      laws.origin-sibling, laws.origin-local, laws.origin-xcm,
    )

    -- A message acts natively as the relay chain, as a
    -- sibling parachain or as the account of this chain that it comes from, and for a sovereign
    -- account as the account of that origin, if it is one of the three; as itself for the kind of
    -- XCM; and as nobody for the kind of a superuser, nor at any other location. It never acts as
    -- root.
    pub dispatch-acts_as :
        (l : Location V) (k : OriginKind)
        → api.convert_origin (xcm_origin_to_transact_dispatch_origin api) l k ≡ acts_as k l
    dispatch-acts_as l native = unrolled l native ∙ shape-first_some _ _ _ l.parents l.interior
    dispatch-acts_as l sovereign_account =
        unrolled l sovereign_account
        ∙ first_some-none _
        ∙ ap (Option.map signed) (account_of-location l)
        ∙ map-shape signed _ _ _ l.parents l.interior
    dispatch-acts_as l superuser = unrolled l superuser
    dispatch-acts_as l xcm = unrolled l xcm
