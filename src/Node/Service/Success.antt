-- ===== src/Node/Service/Success.antt =====
-- A node starts when the libraries succeed (`start_parachain_node` of node/src/service.rs).
use subtrate.Base.{ℕ, ◌≡◌, ◌≢◌, Bool, true, Option, none, some, []}
use subtrate.Frame.Dispatch.{ok}
use subtrate.Node.Effects.{expect, emit, pure, ◌>>=◌}
use subtrate.Node.Finishes.{
  Finishes, Finishes-expect, Finishes-emit, Finishes-when, Finishes-bind, Finishes-bind_done,
  finishes_rules,
}
use subtrate.Node.Service.Types.{
  ServiceConfig, Executor, Parts, PartialComponents, BuildNetworkParams, Network, SpawnTasksParams,
  StartRelayChainTasksParams, network_started, ServiceApi,
}
use subtrate.Node.Service.Start.{
  new_partial, connect_telemetry, run_telemetry, report_hwbench, spawn_hwbench, serve, bring_up,
  author, start_consensus, start_parachain_node,
}
use subtrate.Node.Service.BringUp.{bring_up-Returns}
use subtrate.Node.Service.Order.{start-StartsAs}
use subtrate.Node.Service.Parts.{StartedWith, start-network, start-tasks, start-relay_tasks}

-- Every library call succeeds, and the interface to the relay chain comes with a key.
pub record IsSuccessful {V : Type 0} (api : ServiceApi V) : Type 0 where
  pub new_telemetry_worker-ok : (n : ℕ) → (w : V) × (api.new_telemetry_worker n ≡ ok w)
  pub new_full_parts-ok :
      (config : ServiceConfig V) (t : Option V) (x : Executor V) (b : Bool)
      → (parts : Parts V) × (api.new_full_parts_record_import config t x b ≡ ok parts)
  pub relay_chain-ok :
      (polkadot : V) (config : ServiceConfig V) (t : Option V) (options : V) (bench : Option V)
      → (built : V × Option V) × (api.build_relay_chain_interface polkadot config t options bench
          ≡ ok built)
  pub keyed :
      (polkadot : V) (config : ServiceConfig V) (t : Option V) (options : V) (bench : Option V)
      → (relay : V) (key : Option V)
      → api.build_relay_chain_interface polkadot config t options bench ≡ ok (relay, key)
      → config.is_authority ≡ true
      → key ≢ none
  pub build_network-ok :
      (p : BuildNetworkParams V) → (net : Network V) × (api.build_network p ≡ ok net)
  pub spawn_tasks-ok : (p : SpawnTasksParams V) → (u : Unit {0}) × (api.spawn_tasks p ≡ ok u)
  pub overseer-ok : (relay : V) → (o : V) × (api.overseer_handle relay ≡ ok o)
  pub relay_chain_tasks-ok :
      (p : StartRelayChainTasksParams V) → (u : Unit {0}) × (api.start_relay_chain_tasks p ≡ ok u)

module _ {V : Type 0} (api : ServiceApi V) (laws : IsSuccessful api) where
  connect_telemetry-Finishes : (o : Option V) → Finishes (connect_telemetry api o)
  unfolding connect_telemetry
  connect_telemetry-Finishes none = search finishes_rules
  connect_telemetry-Finishes (some e) = search (finishes_rules, laws.new_telemetry_worker-ok)

  run_telemetry-Finishes : (o : Option (V × V)) → Finishes (run_telemetry api o)
  unfolding run_telemetry
  run_telemetry-Finishes none = search finishes_rules
  run_telemetry-Finishes (some (w, t)) = search finishes_rules

  pub new_partial-Finishes : (config : ServiceConfig V) → Finishes (new_partial api config)
  unfolding new_partial
  new_partial-Finishes config =
      search
        (finishes_rules, connect_telemetry-Finishes, run_telemetry-Finishes, laws.new_full_parts-ok)

  spawn_hwbench-Finishes : (o : Option V) (bench : V) → Finishes (spawn_hwbench api o bench)
  spawn_hwbench-Finishes none bench = search finishes_rules
  spawn_hwbench-Finishes (some t) bench = search finishes_rules

  report_hwbench-Finishes :
      (validator : Bool) (telemetry bench : Option V)
      → Finishes (report_hwbench api validator telemetry bench)
  unfolding report_hwbench
  report_hwbench-Finishes validator telemetry none = search finishes_rules
  report_hwbench-Finishes validator telemetry (some bench) =
      search (finishes_rules, spawn_hwbench-Finishes)

  serve-Finishes :
      (config : ServiceConfig V) (params : PartialComponents V) (relay : V) (key : Option V)
      (id : ℕ)
      → (bench : Option V) → Finishes (serve api config params relay key id bench)
  unfolding serve
  serve-Finishes config params relay key id bench =
      search
        (
          finishes_rules, report_hwbench-Finishes, laws.build_network-ok, laws.spawn_tasks-ok,
          laws.overseer-ok, laws.relay_chain_tasks-ok,
        )
        depth 40

  bring_up-Finishes :
      (config : ServiceConfig V) (polkadot options : V) (id : ℕ) (bench : Option V)
      → Finishes (bring_up api config polkadot options id bench)
  unfolding bring_up
  bring_up-Finishes config polkadot options id bench =
      search (finishes_rules, new_partial-Finishes, serve-Finishes, laws.relay_chain-ok) depth 40

  pub start-Finishes :
      (config : ServiceConfig V) (polkadot options : V) (id : ℕ) (bench : Option V)
      → Finishes (start_parachain_node api config polkadot options id bench)
  unfolding start_parachain_node author start_consensus
  start-Finishes config polkadot options id bench =
      Finishes-bind_done (bring_up api config polkadot options id bench)
        (λ r. author api r id >>= λ _. emit network_started >>= λ _. pure r.params.client)
        (bring_up-Finishes config polkadot options id bench)
        λ r l up.
          let (_, _, t, built) =
            (bring_up-Returns api id config polkadot options bench).holds l r up in
          Finishes-bind (author api r id) (λ _. emit network_started >>= λ _. pure r.params.client)
            (Finishes-when r.config.is_authority _ λ y.
              Finishes-bind (expect r.collator_key) _
                (Finishes-expect r.collator_key
                  (laws.keyed polkadot r.config t options bench _ _ built y))
                λ k. Finishes-emit _)
            λ _. search finishes_rules

  -- A node starts: if every library call succeeds and the relay chain's interface comes with a key
  -- for every authority, the start returns a client. The network has been built with that client,
  -- which the tasks of the node and those for the relay chain were started with, too; and
  -- the author, for an authority, and the network are the last that is started.
  pub start-done :
      (config : ServiceConfig V) (polkadot options : V) (para_id : ℕ) (bench : Option V)
      → (client : V) × StartedWith client
          (api.prepare_node_config config)
          para_id
          (start_parachain_node api config polkadot options para_id bench [])
  start-done config polkadot options id bench =
      let (client, ends) = (start-Finishes config polkadot options id bench).at [] in
      (
        client,
        (
          ends,
          (start-network api config polkadot options id bench).at [] client ends,
          (start-tasks api config polkadot options id bench).at [] client ends,
          (start-relay_tasks api config polkadot options id bench).at [] client ends,
          start-StartsAs api config polkadot options id bench,
        ),
      )
