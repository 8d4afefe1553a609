-- ===== src/Runtime/Witnesses.antt =====
-- The theorem on the sessions (runtime/src/configs/mod.rs) at concrete sessions, which are their
-- length with their offset.
use subtrate.Base.{
  ℕ, ◌+◌, ◌-◌, ◌*◌, ◌%◌, ◌≤◌, ◌<◌, ◌≡◌, refl, ◌↔◌, true, ◌&&◌, leb, ◌==◌, List, [], ◌∷◌, length,
  ◌++◌, arith,
}
use subtrate.Frame.Dispatch.{AccountId}
use subtrate.Runtime.Configs.{collator_selection_config, aura_config}
use subtrate.Runtime.Sessions.{SessionApi, IsSessionApi, Ends, predicted, sessions_rotate}

abbrev sessions : SessionApi (ℕ × ℕ)
sessions = record {
  periodic_sessions = λ length first. (length, first);
  should_end_session = λ q n. leb q.1 n && ((n - q.1) % q.0 == 0);
  estimate_next_session_rotation = λ q n. n + (q.0 - (n - q.1) % q.0);
}

ends_lem :
    (length first n : ℕ)
    → ((leb first n && ((n - first) % length == 0)) ≡ true)
      ↔ ((first ≤ n) × ((n - first) % length ≡ 0))
ends_lem length first n = (λ h. (ground arith, ground arith), λ (a, b). ground arith)

sessions-IsSessionApi : IsSessionApi sessions
sessions-IsSessionApi = record { ends_iff = ends_lem; estimates = λ length first n h. refl }

abbrev collators : List AccountId
collators = 1 ∷ 2 ∷ []

-- In the middle of the second session, with two collators.
sessions_rotate_example :
    ((m : ℕ) × (5000 ≤ m)
      × (m < 5000 + collator_selection_config.kick_threshold)
      × Ends sessions m
      × ((k : ℕ)
          → 5000 ≤ k
          → k < 5000 + collator_selection_config.kick_threshold
          → Ends sessions k
          → k ≡ m))
    × (collator_selection_config.kick_threshold * aura_config.slot_duration ≡ 6 * 60 * 60 * 1000)
    × (0 < 5000
        → Ends sessions (predicted sessions 5000)
          × (5000 < predicted sessions 5000)
          × ((k : ℕ) → 5000 < k → k < predicted sessions 5000 → ¬ Ends sessions k))
    × (length (collators ++ []) ≤ aura_config.max_authorities)
unfolding collator_selection_config
sessions_rotate_example =
    sessions_rotate sessions sessions-IsSessionApi 5000 collators [] (omega arith) (omega arith)
