-- ===== src/Runtime/Xcm/Privileged.antt =====
-- Which XCM messages pass the checks of privileged calls (`CollatorSelectionUpdateOrigin` and the
-- root checks of runtime/src/configs/mod.rs and runtime/src/configs/xcm_config.rs).
use subtrate.Base.{ℕ, ◌≡◌, refl, sym, ◌∙◌, inl, inr, ◌↔◌, true, false, ◌||◌, [], ◌∷◌, Option, some}
use mathlib.Core.Path.{subst}
use subtrate.Frame.Dispatch.{AccountId}
use subtrate.Runtime.Xcm.Barrier.{defense, plurality, Location, relay_location}
use subtrate.Runtime.Xcm.Origins.{
  OriginKind, xcm, RuntimeOrigin, signed, relay, sibling_para, xcm_origin, ConverterApi,
  xcm_origin_to_transact_dispatch_origin,
}
use subtrate.Runtime.Xcm.Dispatching.{
  IsConverterApi, acts_as, OnSome, acts_as-OnSome, dispatch-acts_as,
}
use subtrate.Runtime.Xcm.Checks.{
  CheckApi, IsCheckApi, collator_selection_update_origin, controller_origin, admin_origin, is_root,
  is_xcm,
}

-- A message from a location passes a check, for a kind of origin.
abbrev pub Passes :
    {V A C O L E : Type 0}
    → ConverterApi V A C
    → CheckApi V O L E
    → O
    → OriginKind
    → Location V
    → Type 0
Passes {V} api checks check k l =
    (o : RuntimeOrigin V) × (api.convert_origin (xcm_origin_to_transact_dispatch_origin api) l k
      ≡ some o)
    × (checks.try_origin check o ≡ true)

-- The voice of the body of the staking admins of the relay chain.
abbrev pub IsStakingAdmin : {V : Type 0} → V → Location V → Type 0
IsStakingAdmin voice l = l ≡ record { parents = 1; interior = plurality defense voice ∷ [] }

module _ {V A C O L E : Type 0} (api : ConverterApi V A C) (preset : AccountId)
    (sibling : ℕ → AccountId) (laws : IsConverterApi api preset sibling) (checks : CheckApi V O L E)
    (voice : V) (behaves : IsCheckApi checks voice) where
  made-acts_as :
      (k : OriginKind) (l : Location V) (o : RuntimeOrigin V)
      → api.convert_origin (xcm_origin_to_transact_dispatch_origin api) l k ≡ some o
      → acts_as api preset sibling k l ≡ some o
  made-acts_as k l o made = sym (dispatch-acts_as api preset sibling laws l k) ∙ made

  -- No message passes a check that refuses accounts, chains and messages as themselves.
  ne-Passes :
      (check : O) (k : OriginKind) (l : Location V)
      → checks.try_origin check relay ≡ false
      → ((id : ℕ) → checks.try_origin check (sibling_para id) ≡ false)
      → ((who : AccountId) → checks.try_origin check (signed who) ≡ false)
      → Passes api checks check k l
      → (k ≡ xcm) × (checks.try_origin check (xcm_origin l) ≡ true)
  ne-Passes check k l pr ps pa (o, made, passed) =
      let P : RuntimeOrigin V → Type 0 = λ o. checks.try_origin check o ≡ false in
      let acts = made-acts_as k l o made in
      elim (acts_as-OnSome api preset sibling P pr ps pa k l) [
        | inl refuses ↦
            let no : checks.try_origin check o ≡ false = subst (OnSome P) acts refuses in
            absurd (cc)
        | inr itself ↦
            let same : ◌≡◌ {A = Option (RuntimeOrigin V)} (some (xcm_origin l)) (some o) =
              subst (λ k. acts_as api preset sibling k l ≡ some o) itself acts in
            let origin : xcm_origin l ≡ o = cc in (itself, rw origin passed)
      ]

  update_decides :
      (o : RuntimeOrigin V)
      → checks.try_origin (collator_selection_update_origin checks) o
        ≡ is_root o || is_xcm (checks.is_voice_of_body relay_location defense) o
  unfolding collator_selection_update_origin
  update_decides o = rw (behaves.try-either, behaves.try-root, behaves.try-xcm) refl

  -- Over XCM the privileged calls of the collator selection are open exactly to the voice of
  -- the body of the staking admins of the relay chain, in a message of the kind of XCM.
  pub update_origin_iff :
      (k : OriginKind) (l : Location V)
      → Passes api checks (collator_selection_update_origin checks) k l
        ↔ ((k ≡ xcm) × IsStakingAdmin voice l)
  update_origin_iff k l =
      let spoken = behaves.voice_iff relay_location l defense in
      (
        λ passes.
            let (itself, passed) =
              ne-Passes (collator_selection_update_origin checks) k l (update_decides relay)
                (λ id. update_decides (sibling_para id)) (λ who. update_decides (signed who))
                passes in
            (itself, spoken.0 (sym (update_decides (xcm_origin l)) ∙ passed)),
        λ (itself, admin). (
          xcm_origin l,
          dispatch-acts_as api preset sibling laws l k
              ∙ subst (λ k. acts_as api preset sibling k l ≡ some (xcm_origin l)) (sym itself) refl,
          update_decides (xcm_origin l) ∙ spoken.1 admin,
        ),
      )

  root_decides : (o : RuntimeOrigin V) → checks.try_origin checks.ensure_root o ≡ is_root o
  root_decides = behaves.try-root

  -- No XCM message, of whatever kind and from wherever, passes the check of the XCMP queue's
  -- controller or that of the administrator of pallet-xcm.
  pub root_origins_closed :
      (k : OriginKind) (l : Location V)
      → (¬ (Passes api checks (controller_origin checks) k l))
        × (¬ (Passes api checks (admin_origin checks) k l))
  unfolding controller_origin admin_origin
  root_origins_closed k l =
      let closed : ¬ (Passes api checks checks.ensure_root k l) = λ passes.
        let (itself, passed) =
          ne-Passes checks.ensure_root k l (root_decides relay)
            (λ id. root_decides (sibling_para id)) (λ who. root_decides (signed who)) passes in
        absurd (cc (root_decides (xcm_origin l))) in
      (closed, closed)
