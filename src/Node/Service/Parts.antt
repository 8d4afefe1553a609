-- ===== src/Node/Service/Parts.antt =====
-- What a node that starts has started with its client (`start_parachain_node` of
-- node/src/service.rs).
use subtrate.Base.{ℕ, ◌≡◌, Bool, Option, none, some, List}
use subtrate.Node.Effects.{Outcome, done, emit, pure, ◌>>=◌}
use subtrate.Node.Emits.{Emits, Emits-when, Emits-expect, emits_rules}
use subtrate.Node.Returns.{Returns-pure, Returns-bind}
use subtrate.Node.Records.{Any, Records, Records-later, Records-first, Records-emit}
use subtrate.Node.Service.Types.{
  ServiceConfig, PartialComponents, Effect, network_built, tasks_spawned, relay_chain_tasks_started,
  network_started, ServiceError, ServiceApi, Running,
}
use subtrate.Node.Service.Start.{
  serve, report_hwbench, spawn_hwbench, bring_up, author, start_consensus, start_parachain_node,
}
use subtrate.Node.Service.Order.{StartsAs}

module _ {V : Type 0} where
  abbrev pub IsNetworkOf : V → Effect V → Type 0
  IsNetworkOf client (network_built p) = p.client ≡ client
  IsNetworkOf client e = ⊥

  abbrev pub IsTasksOf : V → Effect V → Type 0
  IsTasksOf client (tasks_spawned p) = p.client ≡ client
  IsTasksOf client e = ⊥

  abbrev pub IsRelayTasksOf : V → Effect V → Type 0
  IsRelayTasksOf client (relay_chain_tasks_started p) = p.client ≡ client
  IsRelayTasksOf client e = ⊥

  -- The start has returned the client, with which the network, the node's tasks and those for the
  -- relay chain were started; and it ends as the order of the start says.
  abbrev pub StartedWith :
      V → ServiceConfig V → ℕ → Outcome ServiceError V × List (Effect V) → Type 0
  StartedWith client config id (r, log) =
      (r ≡ done client)
      × Any (IsNetworkOf client) log
      × Any (IsTasksOf client) log
      × Any (IsRelayTasksOf client) log
      × StartsAs config id (r, log)

-- Nothing is asked of the effects, and a panic is allowed.
abbrev Grows :
    {E A : Type 0} {V : Type 0} → (List (Effect V) → Outcome E A × List (Effect V)) → Type 0
Grows m = Emits (λ e. Unit {0}) (Unit {0}) m

module _ {V : Type 0} (api : ServiceApi V) where
  spawn_hwbench-Grows : (o : Option V) (bench : V) → Grows (spawn_hwbench api o bench)
  spawn_hwbench-Grows none bench = search emits_rules
  spawn_hwbench-Grows (some t) bench = search (emits_rules, tt)

  report_hwbench-Grows :
      (validator : Bool) (telemetry bench : Option V)
      → Grows (report_hwbench api validator telemetry bench)
  unfolding report_hwbench
  report_hwbench-Grows validator telemetry none = search emits_rules
  report_hwbench-Grows validator telemetry (some bench) =
      search (emits_rules, spawn_hwbench-Grows, tt)

  author-Grows : (r : Running V) (id : ℕ) → Grows (author api r id)
  unfolding author start_consensus
  author-Grows r id = Emits-when r.config.is_authority _ λ _. search (Emits-expect, emits_rules, tt)

  module _ (config : ServiceConfig V) (params : PartialComponents V) (relay : V) (key : Option V)
      (id : ℕ) (bench : Option V) where
    ruleset serve_rules = (
      Records-emit, Records-later, emits_rules, report_hwbench-Grows, Returns-bind, Returns-pure,
      tt,
    )

    serve-network :
        Records
          (λ (r : Running V) e. IsNetworkOf r.params.client e)
          (serve api config params relay key id bench)
    unfolding serve
    serve-network = search serve_rules depth 60

    serve-tasks :
        Records
          (λ (r : Running V) e. IsTasksOf r.params.client e)
          (serve api config params relay key id bench)
    unfolding serve
    serve-tasks = search serve_rules depth 60

    serve-relay_tasks :
        Records
          (λ (r : Running V) e. IsRelayTasksOf r.params.client e)
          (serve api config params relay key id bench)
    unfolding serve
    serve-relay_tasks = search serve_rules depth 60

  module _ (config : ServiceConfig V) (polkadot options : V) (id : ℕ) (bench : Option V) where
    -- What is on the log with the client when the node serves is there when the start returns it.
    start-Records :
        (Q : V → Effect V → Type 0)
        → ((config : ServiceConfig V) (params : PartialComponents V) (relay : V) (key : Option V)
            → Records
                (λ (r : Running V) e. Q r.params.client e)
                (serve api config params relay key id bench))
        → Records Q (start_parachain_node api config polkadot options id bench)
    unfolding start_parachain_node bring_up
    start-Records Q served =
        Records-first Q (λ r e. Q r.params.client e) (bring_up api config polkadot options id bench)
          (λ r. author api r id >>= λ _. emit network_started >>= λ _. pure r.params.client)
          (search (Records-later, served)) (λ r. search (emits_rules, author-Grows))
          λ r. search (Returns-bind, Returns-pure)

    pub start-network :
        Records IsNetworkOf (start_parachain_node api config polkadot options id bench)
    start-network = start-Records IsNetworkOf λ c p r k. serve-network c p r k id bench

    pub start-tasks : Records IsTasksOf (start_parachain_node api config polkadot options id bench)
    start-tasks = start-Records IsTasksOf λ c p r k. serve-tasks c p r k id bench

    pub start-relay_tasks :
        Records IsRelayTasksOf (start_parachain_node api config polkadot options id bench)
    start-relay_tasks = start-Records IsRelayTasksOf λ c p r k. serve-relay_tasks c p r k id bench
