-- ===== src/Node/Service/Panics.antt =====
-- The start of a node does not panic (`start_parachain_node` of node/src/service.rs).
use subtrate.Base.{ℕ, ◌≡◌, ◌≢◌, true, Option, none, List}
use subtrate.Frame.Dispatch.{ok}
use subtrate.Node.Effects.{panicked, emit, pure, expect, ◌>>=◌}
use subtrate.Node.Emits.{
  Emits, Emits-when, Emits-bind, Emits-bind_done, Emits-expect, Emits-emit, Emits-pure, Emits-mono,
}
use subtrate.Node.Service.Types.{ServiceConfig, Effect, network_started, ServiceApi, Running}
use subtrate.Node.Service.Start.{bring_up, author, start_consensus, start_parachain_node}
use subtrate.Node.Service.BringUp.{bring_up-Emits, bring_up-Returns}

module _ {V : Type 0} (api : ServiceApi V) where
  author-Emits :
      (r : Running V) (id : ℕ)
      → Emits
          (λ e. Unit {0})
          ((r.config.is_authority ≡ true) × (r.collator_key ≡ none))
          (author api r id)
  unfolding author start_consensus
  author-Emits r id = Emits-when r.config.is_authority _ λ y.
      Emits-bind (expect r.collator_key) _ (Emits-expect r.collator_key (λ n. (y, n)))
        λ k. Emits-emit _ tt

  -- The start does not panic: the `expect` of the collator key holds, if the interface to the relay
  -- chain comes with a key for every node that is an authority.
  pub start-ne-panicked :
      ((polkadot : V) (config : ServiceConfig V) (t : Option V) (options : V) (bench : Option V)
          (relay : V) (key : Option V)
        → api.build_relay_chain_interface polkadot config t options bench ≡ ok (relay, key)
        → config.is_authority ≡ true
        → key ≢ none)
      → (config : ServiceConfig V) (polkadot options : V) (para_id : ℕ) (bench : Option V)
      → (log : List (Effect V))
      → (start_parachain_node api config polkadot options para_id bench log).0 ≢ panicked
  unfolding start_parachain_node
  start-ne-panicked keyed config polkadot options id bench log h =
      let any : Emits (λ e. Unit {0}) ⊥ (bring_up api config polkadot options id bench) =
        Emits-mono (λ e q. tt) (λ x. x) (bring_up-Emits api id config polkadot options bench) in
      let whole : Emits (λ e. Unit {0}) ⊥
          (start_parachain_node api config polkadot options id bench) =
        Emits-bind_done (bring_up api config polkadot options id bench)
          (λ r. author api r id >>= λ _. emit network_started >>= λ _. pure r.params.client) any
          λ r l up.
            let (_, _, t, built) =
              (bring_up-Returns api id config polkadot options bench).holds l r up in
            Emits-bind (author api r id) (λ _. emit network_started >>= λ _. pure r.params.client)
              (Emits-mono (λ e q. tt)
                (λ (y, missing). keyed polkadot r.config t options bench _ _ built y missing)
                (author-Emits r id))
              λ _.
                Emits-bind (emit network_started) (λ _. pure r.params.client) (Emits-emit _ tt)
                  λ _. Emits-pure _ in
      whole.panics log h
