-- ===== src/Runtime/Xcm/Local.antt =====
-- The local origins that may send XCM messages (`LocalOriginToLocation` of
-- runtime/src/configs/xcm_config.rs), against the origins of the messages that arrive.
use subtrate.Base.{
  arith, ℕ, ◌==◌, ◌≡◌, refl, sym, ap, ◌∙◌, ◌⊎◌, inl, inr, ◌↔◌, List, [], ◌∷◌, Option, none, some,
  if◌then◌else◌,
}
use subtrate.Frame.Dispatch.{AccountId}
use subtrate.Runtime.Xcm.Barrier.{
  Junction, parachain, account_id32, plurality, another_junction, Location,
}
use subtrate.Runtime.Xcm.Origins.{
  native, RuntimeOrigin, root, signed, relay, sibling_para, xcm_origin, ConverterApi,
  xcm_origin_to_transact_dispatch_origin,
}
use subtrate.Runtime.Xcm.Dispatching.{IsConverterApi, acts_as, shape, dispatch-acts_as}
use subtrate.Runtime.Xcm.Checks.{
  CheckApi, IsCheckApi, send_xcm_origin, local_origin_to_location, here_location, root_here,
  or_else, account_of,
}

-- An account of this chain.
abbrev pub account_location : {V : Type 0} → AccountId → Location V
account_location a = record { parents = 0; interior = account_id32 none a ∷ [] }

signed-value :
    {V : Type 0} (a : AccountId) {b : AccountId}
    → Path (RuntimeOrigin V) (signed a) (signed b)
    → a ≡ b
signed-value a h = cc

some-signed :
    {V : Type 0} (a b : AccountId)
    → Path (Option (RuntimeOrigin V)) (some (signed a)) (some (signed b))
    → a ≡ b
some-signed a b h = cc

pub some-value : {X : Type 0} (a : X) {x y : X} → Path (Option X) (some x) (some y) → x ≡ y
some-value a p = ap (λ o. elim o [ some v ↦ v | none ↦ a ]) p

pub if-some :
    {X : Type 0} (p q : ℕ) (o : Option X) (x : X)
    → (if p == q then o else none) ≡ some x
    → (p ≡ q) × (o ≡ some x)
if-some p q o x h = ground arith

-- Only an account of this chain acts natively as an account.
native-signed :
    {V : Type 0} (a : AccountId) (p : ℕ) (js : List (Junction V))
    → Path
        (Option (RuntimeOrigin V))
        (shape (some relay) (λ id. some (sibling_para id)) (λ who. some (signed who)) p js)
        (some (signed a))
    → (p ≡ 0) × (js ≡ account_id32 none a ∷ [])
native-signed a p [] h = let (_, e) = if-some p 1 (some relay) (signed a) h in absurd (cc)
native-signed a p (parachain id ∷ []) h =
    let (_, e) = if-some p 1 (some (sibling_para id)) (signed a) h in absurd (cc)
native-signed a p (account_id32 none who ∷ []) h =
    let (zeroth, e) = if-some p 0 (some (signed who)) (signed a) h in
    (zeroth, ap (λ w. account_id32 none w ∷ []) (some-signed who a e))
native-signed a p (parachain id ∷ j ∷ js) h = absurd (cc)
native-signed a p (account_id32 none who ∷ j ∷ js) h = absurd (cc)
native-signed a p (account_id32 (some n) who ∷ js) h = absurd (cc)
native-signed a p (plurality b part ∷ js) h = absurd (cc)
native-signed a p (another_junction v ∷ js) h = absurd (cc)

sends_iff :
    {V : Type 0} (o : RuntimeOrigin V) (l : Location V)
    → (or_else (account_of none o) (root_here o) ≡ some l) ↔ (
        ((a : AccountId) × (o ≡ signed a) × (l ≡ account_location a))
        ⊎ ((o ≡ root) × (l ≡ here_location)))
sends_iff root l = (
  λ h. inr (refl, sym (some-value here_location h)),
  λ c. elim c [ inl (a, e, _) ↦ absurd (cc) | inr (_, e) ↦ ap some (sym e) ],
)
sends_iff (signed a) l = (
  λ h. inl (a, refl, sym (some-value (account_location a) h)),
  λ c. elim c [
    | inl (b, e, at) ↦
        let same : account_location b ≡ account_location a =
          ap account_location (sym (signed-value a e)) in
        ap some (sym (at ∙ same))
    | inr (e, _) ↦ absurd (cc)
  ],
)
sends_iff relay l =
    (λ h. absurd (cc), λ c. elim c [ inl (a, e, _) ↦ absurd (cc) | inr (e, _) ↦ absurd (cc) ])
sends_iff (sibling_para id) l =
    (λ h. absurd (cc), λ c. elim c [ inl (a, e, _) ↦ absurd (cc) | inr (e, _) ↦ absurd (cc) ])
sends_iff (xcm_origin x) l =
    (λ h. absurd (cc), λ c. elim c [ inl (a, e, _) ↦ absurd (cc) | inr (e, _) ↦ absurd (cc) ])

module _ {V A C O L E : Type 0} (api : ConverterApi V A C) (preset : AccountId)
    (sibling : ℕ → AccountId) (laws : IsConverterApi api preset sibling) (checks : CheckApi V O L E)
    (voice : V) (behaves : IsCheckApi checks voice) where
  send_decides :
      (o : RuntimeOrigin V)
      → checks.ensure_origin (send_xcm_origin checks) o ≡ or_else (account_of none o) (root_here o)
  unfolding send_xcm_origin local_origin_to_location
  send_decides o = rw (behaves.ensure-xcm, behaves.convert-signed) refl

  -- The origins that may send, and as what: an account as itself, and root as the chain.
  pub send_origin_iff :
      (o : RuntimeOrigin V) (l : Location V)
      → (checks.ensure_origin (send_xcm_origin checks) o ≡ some l) ↔ (
          ((a : AccountId) × (o ≡ signed a) × (l ≡ account_location a))
          ⊎ ((o ≡ root) × (l ≡ here_location)))
  send_origin_iff o l =
      let ends = sends_iff o l in
      (λ h. ends.0 (sym (send_decides o) ∙ h), λ c. send_decides o ∙ ends.1 c)

  -- Sending and acting are inverse: an account sends from exactly those locations whose messages
  -- act natively as that account here.
  pub local_round_trip :
      (a : AccountId) (l : Location V)
      → (checks.ensure_origin (send_xcm_origin checks) (signed a) ≡ some l) ↔ (
          api.convert_origin (xcm_origin_to_transact_dispatch_origin api) l native
          ≡ some (signed a))
  local_round_trip a l = (
    λ h.
        let e : account_location a ≡ l =
          some-value (account_location a) (sym (send_decides (signed a)) ∙ h) in
        dispatch-acts_as api preset sibling laws l native
        ∙ ap (acts_as api preset sibling native) (sym e),
    λ h.
        let (p, js) =
          native-signed a l.parents l.interior
            (sym (dispatch-acts_as api preset sibling laws l native) ∙ h) in
        let e : l ≡ account_location a = ground arith in send_decides (signed a) ∙ ap some (sym e),
  )
