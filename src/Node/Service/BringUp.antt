-- ===== src/Node/Service/BringUp.antt =====
-- What a node does before it comes to the consensus (`start_parachain_node` of
-- node/src/service.rs).
use subtrate.Base.{ℕ, ◌≡◌, Bool, Option, none, some}
use subtrate.Frame.Dispatch.{ok}
use subtrate.Runtime.Constants.{relay_chain_slot_duration_millis}
use subtrate.Node.Effects.{emit}
use subtrate.Node.Emits.{Emits, emits_rules}
use subtrate.Node.Returns.{Returns, Returns-pure, Returns-bind, Returns-bind_lift}
use subtrate.Node.Service.Types.{
  ServiceConfig, telemetry_worker, offchain_workers, hwbench_telemetry, aura, Effect, spawned,
  spawned_essential, relay_chain_interface_built, network_built, tasks_spawned, hwbench_printed,
  hardware_warned, relay_chain_tasks_started, network_started, application, ServiceApi,
  PartialComponents, Running,
}
use subtrate.Node.Service.Start.{
  new_partial, connect_telemetry, run_telemetry, report_hwbench, spawn_hwbench, serve, bring_up,
}

-- A part that is started before the block author and the network: it is for the parachain `id`,
-- at the slots of the relay chain, and is neither of those two.
abbrev pub IsSetup : {V : Type 0} → ℕ → Effect V → Type 0
IsSetup id (spawned name (aura p)) = ⊥
IsSetup id (spawned name (telemetry_worker w)) = Unit
IsSetup id (spawned name (offchain_workers o)) = Unit
IsSetup id (spawned name (hwbench_telemetry t b)) = Unit
IsSetup id (spawned_essential name (aura p)) = ⊥
IsSetup id (spawned_essential name (telemetry_worker w)) = Unit
IsSetup id (spawned_essential name (offchain_workers o)) = Unit
IsSetup id (spawned_essential name (hwbench_telemetry t b)) = Unit
IsSetup id (relay_chain_interface_built r) = Unit
IsSetup id (network_built p) = p.para_id ≡ id
IsSetup id (tasks_spawned p) = Unit
IsSetup id (hwbench_printed b) = Unit
IsSetup id hardware_warned = Unit
IsSetup id (relay_chain_tasks_started p) =
    (p.para_id ≡ id) × (p.relay_chain_slot_duration ≡ relay_chain_slot_duration_millis)
IsSetup id network_started = ⊥

-- The first part, which starts nothing but the telemetry's worker.
module _ {V : Type 0} (api : ServiceApi V) {Q : Effect V → Type 0}
    (worker : (w : V) → Q (spawned "telemetry" (telemetry_worker w))) where
  connect_telemetry-Emits : (o : Option V) → Emits Q ⊥ (connect_telemetry api o)
  unfolding connect_telemetry
  connect_telemetry-Emits none = search emits_rules
  connect_telemetry-Emits (some e) = search emits_rules

  run_telemetry-Emits : (o : Option (V × V)) → Emits Q ⊥ (run_telemetry api o)
  unfolding run_telemetry
  run_telemetry-Emits none = search emits_rules
  run_telemetry-Emits (some (w, t)) = search (emits_rules, worker)

  pub new_partial-Emits : (config : ServiceConfig V) → Emits Q ⊥ (new_partial api config)
  unfolding new_partial
  new_partial-Emits config = search (emits_rules, connect_telemetry-Emits, run_telemetry-Emits)

module _ {V : Type 0} (api : ServiceApi V) (id : ℕ) where
  spawn_hwbench-Emits :
      (o : Option V) (bench : V) → Emits (IsSetup id) ⊥ (spawn_hwbench api o bench)
  spawn_hwbench-Emits none bench = search emits_rules
  spawn_hwbench-Emits (some t) bench = search (emits_rules, tt)

  report_hwbench-Emits :
      (validator : Bool) (telemetry bench : Option V)
      → Emits (IsSetup id) ⊥ (report_hwbench api validator telemetry bench)
  unfolding report_hwbench
  report_hwbench-Emits validator telemetry none = search emits_rules
  report_hwbench-Emits validator telemetry (some bench) =
      search (emits_rules, spawn_hwbench-Emits, tt)

  serve-Emits :
      (config : ServiceConfig V) (params : PartialComponents V) (relay : V) (key : Option V)
      → (bench : Option V) → Emits (IsSetup id) ⊥ (serve api config params relay key id bench)
  unfolding serve
  serve-Emits config params relay key bench = search (emits_rules, report_hwbench-Emits) depth 40

  pub bring_up-Emits :
      (config : ServiceConfig V) (polkadot options : V) (bench : Option V)
      → Emits (IsSetup id) ⊥ (bring_up api config polkadot options id bench)
  unfolding bring_up
  bring_up-Emits config polkadot options bench =
      search (emits_rules, new_partial-Emits api {Q = IsSetup id} (λ w. tt), serve-Emits, tt) depth
        40

  -- What the consensus finds: the prepared configuration, and what the relay chain's interface
  -- was built with.
  abbrev pub IsBroughtUp : ServiceConfig V → V → V → Option V → Running V → Type 0
  IsBroughtUp config polkadot options bench r =
      (r.config ≡ api.prepare_node_config config)
      × (r.slot_duration ≡ relay_chain_slot_duration_millis)
      × (t : Option V) × (api.build_relay_chain_interface polkadot r.config t options bench
          ≡ ok (r.relay_chain_interface, r.collator_key))

  serve-Returns :
      (config : ServiceConfig V) (params : PartialComponents V) (relay : V) (key : Option V)
      → (bench : Option V)
      → Returns
          (λ r.
            (r.config ≡ config)
            × (r.relay_chain_interface ≡ relay)
            × (r.collator_key ≡ key)
            × (r.slot_duration ≡ relay_chain_slot_duration_millis))
          (serve api config params relay key id bench)
  unfolding serve
  serve-Returns config params relay key bench = search (Returns-bind, Returns-pure) depth 40

  pub bring_up-Returns :
      (config : ServiceConfig V) (polkadot options : V) (bench : Option V)
      → Returns
          (IsBroughtUp config polkadot options bench)
          (bring_up api config polkadot options id bench)
  unfolding bring_up
  bring_up-Returns config polkadot options bench =
      let given = api.prepare_node_config config in
      Returns-bind (new_partial api given) _ λ params.
        Returns-bind_lift application _ _ λ (relay, key) built.
          Returns-bind (emit (relay_chain_interface_built relay))
            (λ _. serve api given params relay key id bench)
            λ _. record {
              holds = λ l r h.
                  let (same, relay', key', slot) =
                    (serve-Returns given params relay key bench).holds l r h in
                  (same, slot, params.telemetry_worker_handle, rw (same, relay', key') built);
            }
