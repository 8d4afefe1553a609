-- ===== src/Runtime/Sessions.antt =====
-- The rotation of the collators (`pallet_session`, `pallet_collator_selection` and `pallet_aura` of
-- runtime/src/configs/mod.rs).
use subtrate.Base.{
  ℕ, ◌+◌, ◌-◌, ◌*◌, ◌/◌, ◌%◌, ◌≤◌, ◌<◌, ◌≡◌, ◌↔◌, Bool, true, List, ◌++◌, length, length-append,
  arith,
}
use subtrate.Frame.Dispatch.{AccountId}
use subtrate.Runtime.Configs.{session_config, collator_selection_config, aura_config}

-- `PeriodicSessions` of pallet-session, of type `Q`: which blocks end a session, and which block is
-- predicted to end the next one.
pub record SessionApi (Q : Type 0) : Type 0 where
  pub periodic_sessions : ℕ → ℕ → Q
  pub should_end_session : Q → ℕ → Bool
  pub estimate_next_session_rotation : Q → ℕ → ℕ

module _ {Q : Type 0} (api : SessionApi Q) where
  -- The documented behaviour: sessions are of one length after the offset.
  pub record IsSessionApi : Type 0 where
    pub ends_iff :
        (length first n : ℕ)
        → (api.should_end_session (api.periodic_sessions length first) n ≡ true)
          ↔ ((first ≤ n) × ((n - first) % length ≡ 0))
    pub estimates :
        (length first n : ℕ)
        → first < n
        → api.estimate_next_session_rotation (api.periodic_sessions length first) n
          ≡ n + (length - (n - first) % length)

  -- A block that ends a session.
  abbrev pub Ends : ℕ → Type 0
  Ends n = api.should_end_session (session_config api.periodic_sessions).should_end_session n ≡ true

  abbrev pub predicted : ℕ → ℕ
  predicted n =
      api.estimate_next_session_rotation
        (session_config api.periodic_sessions).next_session_rotation n

  module _ (laws : IsSessionApi) where
    Ends-iff : (n : ℕ) → Ends n ↔ (n % 3600 ≡ 0)
    unfolding session_config
    Ends-iff n =
        let at = laws.ends_iff 3600 0 n in
        (λ e. let (late, whole) = at.0 e in omega arith, λ e. at.1 (omega arith, omega arith))

    predicted-value : (n : ℕ) → 0 < n → predicted n ≡ n + (3600 - n % 3600)
    unfolding session_config
    predicted-value n late =
        let at : predicted n ≡ n + (3600 - (n - 0) % 3600) = laws.estimates 3600 0 n late in
        omega arith

    -- The threshold after which an idle collator is removed is one session: of as many blocks in a
    -- row exactly one ends a session, and at the slot duration they take six hours. From the first
    -- block on the block that is predicted to end a session is the next one that does. All the
    -- collators that the selection can name are authorities of Aura.
    pub sessions_rotate :
        (n : ℕ) (invulnerables candidates : List AccountId)
        → length invulnerables ≤ collator_selection_config.max_invulnerables
        → length candidates ≤ collator_selection_config.max_candidates
        → let threshold = collator_selection_config.kick_threshold in
          ((m : ℕ) × (n ≤ m)
            × (m < n + threshold)
            × Ends m
            × ((k : ℕ) → n ≤ k → k < n + threshold → Ends k → k ≡ m))
          × (threshold * aura_config.slot_duration ≡ 6 * 60 * 60 * 1000)
          × (0 < n
              → Ends (predicted n)
                × (n < predicted n)
                × ((k : ℕ) → n < k → k < predicted n → ¬ Ends k))
          × (length (invulnerables ++ candidates) ≤ aura_config.max_authorities)
    unfolding collator_selection_config aura_config
    sessions_rotate n invulnerables candidates few few' =
        let last = (n + 3599) / 3600 * 3600 in
        (
          (
            last,
            omega arith,
            omega arith,
            (Ends-iff last).1 (omega arith),
            λ k from to e. let whole = (Ends-iff k).0 e in omega arith,
          ),
          omega arith,
          λ late.
              let at = predicted-value n late in
              (
                (Ends-iff (predicted n)).1 (omega arith),
                omega arith,
                λ k from to e. let whole = (Ends-iff k).0 e in omega arith,
              ),
          omega (arith, length-append invulnerables candidates),
        )
