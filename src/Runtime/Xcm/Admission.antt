-- ===== src/Runtime/Xcm/Admission.antt =====
-- Which XCM messages the barrier admits (`Barrier` of runtime/src/configs/xcm_config.rs).
use mathlib.Core.Path.{subst}
use subtrate.Base.{
  arith, ℕ, ◌==◌, ◌≡◌, refl, sym, ◌∙◌, ◌⊎◌, inl, inr, ◌↔◌, Bool, true, false, ◌&&◌, ◌||◌, List, [],
  ◌∷◌, Option, none, some,
}
use subtrate.Runtime.Xcm.Barrier.{
  executive, defense, another_body, Junction, parachain, account_id32, plurality, another_junction,
  Location, BarrierApi, none_or_executive, relay_location, universal_location, contains, barrier,
}

-- What the barriers look at.
pub record Message (V M : Type 0) : Type 0 where
  -- the message without the topic at its end
  pub without_topic : M → M
  pub has_credit : M → Bool
  -- the origin, after the first instructions that change it, at most as many, and the rest
  pub computed : List (Junction V) → ℕ → Location V → M → Option (Location V × M)
  pub is_paid : M → Bool
  pub is_unpaid : M → Bool

module _ {V M B : Type 0} (api : BarrierApi V M B) (x : Message V M) where
  abbrev pub admits_computed : B → Option (Location V × M) → Bool
  admits_computed b none = false
  admits_computed b (some (origin, m)) = api.admits b origin m

  -- The documented behaviour of each barrier.
  pub record IsBarrierApi : Type 0 where
    pub admits-trailing :
        (b : B) (l : Location V) (m : M)
        → api.admits (api.trailing_set_topic_as_id b) l m ≡ api.admits b l (x.without_topic m)
    pub admits-deny :
        (d a : B) (l : Location V) (m : M)
        → api.admits (api.deny_then_try d a) l m ≡ api.admits d l m && api.admits a l m
    pub admits-either :
        (a b : B) (l : Location V) (m : M)
        → api.admits (api.either a b) l m ≡ api.admits a l m || api.admits b l m
    pub admits-credit :
        (l : Location V) (m : M) → api.admits api.take_weight_credit l m ≡ x.has_credit m
    pub admits-origin :
        (b : B) (u : List (Junction V)) (n : ℕ) (l : Location V) (m : M)
        → api.admits (api.with_computed_origin b u n) l m ≡ admits_computed b (x.computed u n l m)
    pub admits-paid :
        (from : Location V → Bool) (l : Location V) (m : M)
        → api.admits (api.allow_top_level_paid_execution_from from) l m ≡ from l && x.is_paid m
    pub admits-unpaid :
        (from : Location V → Bool) (l : Location V) (m : M)
        → api.admits (api.allow_explicit_unpaid_execution_from from) l m ≡ from l && x.is_unpaid m

-- The relay chain, or its executive body.
abbrev pub IsRelayOrExecutive : {V : Type 0} → Location V → Type 0
IsRelayOrExecutive {V} l =
    (l ≡ relay_location)
    ⊎ ((part : V) × (l ≡ record { parents = 1; interior = plurality executive part ∷ [] }))

interior_cases :
    {V : Type 0} (js : List (Junction V))
    → none_or_executive js ≡ true
    → (js ≡ []) ⊎ ((part : V) × (js ≡ plurality executive part ∷ []))
interior_cases [] h = inl refl
interior_cases (plurality executive part ∷ []) h = inr (part, refl)
interior_cases (plurality executive part ∷ j ∷ js) h = ground arith
interior_cases (plurality defense part ∷ js) h = ground arith
interior_cases (plurality (another_body b) part ∷ js) h = ground arith
interior_cases (parachain id ∷ js) h = ground arith
interior_cases (account_id32 n a ∷ js) h = ground arith
interior_cases (another_junction v ∷ js) h = ground arith

&&-true : (a b : Bool) → a && b ≡ true → (a ≡ true) × (b ≡ true)
&&-true a b h = ground arith

&&-of : (a b : Bool) → a ≡ true → b ≡ true → a && b ≡ true
&&-of a b h k = ground arith

||-true : (a b : Bool) → a || b ≡ true → (a ≡ true) ⊎ (b ≡ true)
||-true a b h = ground arith

||-of : (a b : Bool) → (a ≡ true) ⊎ (b ≡ true) → a || b ≡ true
||-of a b h = ground arith

contains_iff : {V : Type 0} (l : Location V) → (contains l ≡ true) ↔ IsRelayOrExecutive l
unfolding contains
contains_iff l = (
  λ h.
      let (one, none_or) = &&-true (l.parents == 1) (none_or_executive l.interior) h in
      elim (interior_cases l.interior none_or) [
        | inl e ↦ inl (ground arith)
        | inr (part, e) ↦ inr (part, ground arith)
      ],
  λ c. elim c [ inl e ↦ rw e refl | inr (part, e) ↦ rw e refl ],
)

module _ {V M B : Type 0} (api : BarrierApi V M B) (x : Message V M)
    (laws : IsBarrierApi api x) where
  -- How the barrier decides on what `x.computed` gives.
  abbrev pays : Option (Location V × M) → Bool
  pays none = false
  pays (some (origin, rest)) = x.is_paid rest || (contains origin && x.is_unpaid rest)

  admits_computed-pays :
      (o : Option (Location V × M))
      → admits_computed api x
          (api.either
            (api.allow_top_level_paid_execution_from (λ l. true))
            (api.allow_explicit_unpaid_execution_from contains))
          o
        ≡ pays o
  admits_computed-pays none = refl
  admits_computed-pays (some (origin, rest)) =
      rw (laws.admits-either, laws.admits-paid, laws.admits-unpaid) refl

  admits-barrier :
      (para_id : ℕ) (l : Location V) (m : M)
      → let bare = x.without_topic m in
        api.admits (barrier api para_id) l m
        ≡ api.admits api.deny_reserve_transfer_to_relay_chain l bare
          && (x.has_credit bare || pays (x.computed (universal_location para_id) 8 l bare))
  unfolding barrier
  admits-barrier para_id l m =
      rw
        (
          laws.admits-trailing, laws.admits-deny, laws.admits-either, laws.admits-credit,
          laws.admits-origin, admits_computed-pays,
        )
        refl

  pays_iff :
      (o : Option (Location V × M))
      → (pays o ≡ true) ↔ (
          (origin : Location V) × (rest : M) × (o ≡ some (origin, rest))
          × ((x.is_paid rest ≡ true) ⊎ ((x.is_unpaid rest ≡ true) × IsRelayOrExecutive origin)))
  pays_iff none = (λ h. ground arith, λ (origin, rest, e, _). ground arith)
  pays_iff (some (origin, rest)) = (
    λ h. (
      origin,
      rest,
      refl,
      elim (||-true _ _ h) [
        | inl paid ↦ inl paid
        | inr free ↦
            let (from, unpaid) = &&-true (contains origin) (x.is_unpaid rest) free in
            inr (unpaid, (contains_iff origin).0 from)
      ],
    ),
    λ (o, r, e, c).
        subst (λ p. pays p ≡ true) (sym e)
          (||-of (x.is_paid r) (contains o && x.is_unpaid r) (elim c [
            | inl paid ↦ inl paid
            | inr (unpaid, from) ↦ inr (&&-of _ _ ((contains_iff o).1 from) unpaid)
          ])),
  )

  -- A message is admitted exactly if, without the topic at its end, it is not denied as a reserve
  -- transfer to the relay chain, and it has weight credit, or, from the origin that its first
  -- eight instructions compute in the parachain, pays for its execution, or declares an unpaid
  -- execution and that origin is the relay chain or its executive body.
  pub barrier-admits_iff :
      (para_id : ℕ) (l : Location V) (m : M)
      → let bare = x.without_topic m in
        (api.admits (barrier api para_id) l m ≡ true) ↔ (
          (api.admits api.deny_reserve_transfer_to_relay_chain l bare ≡ true)
          × ((x.has_credit bare ≡ true)
              ⊎ ((origin : Location V) × (rest : M) × (x.computed
                      (universal_location para_id)
                      8
                      l
                      bare
                    ≡ some (origin, rest))
                  × ((x.is_paid rest ≡ true)
                      ⊎ ((x.is_unpaid rest ≡ true) × IsRelayOrExecutive origin)))))
  barrier-admits_iff para_id l m =
      let bare = x.without_topic m in
      let decision = pays (x.computed (universal_location para_id) 8 l bare) in
      let decided = admits-barrier para_id l m in
      (
        λ h.
            let (let_through, rest) =
              &&-true (api.admits api.deny_reserve_transfer_to_relay_chain l bare)
                (x.has_credit bare || decision) (sym decided ∙ h) in
            (
              let_through,
              elim (||-true (x.has_credit bare) decision rest) [
                | inl credit ↦ inl credit
                | inr paid ↦
                    inr ((pays_iff (x.computed (universal_location para_id) 8 l bare)).0 paid)
              ],
            ),
        λ (let_through, c).
            decided
            ∙ &&-of _ _ let_through (
                ||-of (x.has_credit bare) decision (elim c [
                  | inl credit ↦ inl credit
                  | inr paid ↦
                      inr ((pays_iff (x.computed (universal_location para_id) 8 l bare)).1 paid)
                ])),
      )
