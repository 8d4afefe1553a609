-- ===== src/Node/Service/Order.antt =====
-- In which order a node starts its parts (`start_parachain_node` of node/src/service.rs).
use mathlib.Core.Path.{subst}
use mathlib.Core.List.{append-nil}
use subtrate.Base.{
  ℕ, ◌≤◌, ◌≡◌, refl, sym, ap, ◌∙◌, ◌≢◌, ◌⊎◌, inl, inr, Bool, true, false, Option, none, some, List,
  [], ◌∷◌, arith,
}
use subtrate.Runtime.Constants.{relay_chain_slot_duration_millis}
use subtrate.Node.Effects.{
  Outcome, done, failed, panicked, continue, emit, pure, when, expect, ◌>>=◌,
}
use subtrate.Node.Emits.{All}
use subtrate.Node.Service.Types.{
  ServiceConfig, aura, AuraParams, Effect, spawned_essential, network_started, ServiceError,
  ServiceApi, Running,
}
use subtrate.Node.Service.Start.{
  Startup, bring_up, author, aura_params, start_consensus, start_parachain_node,
}
use subtrate.Node.Service.BringUp.{IsSetup, bring_up-Emits, bring_up-Returns}

-- The author is for the parachain `id`, at the slots of the relay chain, and has done with a block
-- within one slot.
abbrev pub AuthorsFor : {V : Type 0} → ℕ → AuraParams V → Type 0
AuthorsFor id p =
    (p.para_id ≡ id)
    × (p.relay_chain_slot_duration ≡ relay_chain_slot_duration_millis)
    × (p.authoring_duration ≤ p.relay_chain_slot_duration)

-- How a start ends, by the prepared configuration: an authority's node has started its author
-- and then the network, any other the network alone; if it does not start, there is neither. What
-- was started before is neither of these, and all is for the parachain `id`.
abbrev pub StartsAs :
    {V : Type 0} → ServiceConfig V → ℕ → Outcome ServiceError V × List (Effect V) → Type 0
StartsAs {V} config id (r, log) =
    ((client : V) × (p : AuraParams V) × (rest : List (Effect V)) × (r ≡ done client)
      × (config.is_authority ≡ true)
      × (log ≡ network_started ∷ spawned_essential "aura" (aura p) ∷ rest)
      × AuthorsFor id p
      × All (IsSetup id) rest)
    ⊎ (((client : V) × (rest : List (Effect V)) × (r ≡ done client)
          × (config.is_authority ≡ false)
          × (log ≡ network_started ∷ rest)
          × All (IsSetup id) rest)
        ⊎ (((client : V) → r ≢ done client) × All (IsSetup id) log))

module _ {V : Type 0} (config : ServiceConfig V) (id : ℕ) where
  -- The end of `start_parachain_node`, by what it depends on.
  abbrev finish : Bool → Option V → (V → AuraParams V) → V → Startup V V
  finish authority key params client =
      when authority (expect key >>= λ k. emit (spawned_essential "aura" (aura (params k))))
      >>= λ _. emit network_started >>= λ _. pure client

  finish-StartsAs :
      (authority : Bool) (key : Option V) (params : V → AuraParams V) (client : V)
      → (log : List (Effect V)) → config.is_authority ≡ authority
      → ((k : V) → AuthorsFor id (params k))
      → All (IsSetup id) log
      → StartsAs config id (finish authority key params client log)
  finish-StartsAs true none params client log e timely setup =
      inr (inr (λ c h. ground arith, setup))
  finish-StartsAs true (some k) params client log e timely setup =
      inl (client, params k, log, refl, e, refl, timely k, setup)
  finish-StartsAs false key params client log e timely setup =
      inr (inl (client, log, refl, e, refl, setup))

  continue-StartsAs :
      (r : Outcome ServiceError (Running V)) (f : Running V → Startup V V) (log : List (Effect V))
      → All (IsSetup id) log
      → ((x : Running V) → r ≡ done x → StartsAs config id (f x log))
      → StartsAs config id (continue r f log)
  continue-StartsAs (done x) f log setup h = h x refl
  continue-StartsAs (failed e) f log setup h = inr (inr (λ c h. ground arith, setup))
  continue-StartsAs panicked f log setup h = inr (inr (λ c h. ground arith, setup))

module _ {V : Type 0} (api : ServiceApi V) where
  author-timely :
      (r : Running V) (id : ℕ) (k : V)
      → r.slot_duration ≡ relay_chain_slot_duration_millis
      → AuthorsFor id (aura_params api r id k)
  unfolding aura_params
  author-timely r id k slot = (refl, slot, omega arith)

  -- A node that starts has started its network as the very last thing; a block author it has
  -- started exactly if it is an authority, right before the network and after all else. A node
  -- that does not start has started neither. Whatever is started with a parachain identifier has
  -- the given one, and whatever is started with a slot has the runtime's slot of the relay chain,
  -- in which the time for authoring fits.
  pub start-StartsAs :
      (config : ServiceConfig V) (polkadot options : V) (para_id : ℕ) (bench : Option V)
      → StartsAs
          (api.prepare_node_config config)
          para_id
          (start_parachain_node api config polkadot options para_id bench [])
  unfolding start_parachain_node start_consensus
  start-StartsAs config polkadot options id bench =
      let given = api.prepare_node_config config in
      let up = bring_up api config polkadot options id bench in
      let (new, e, setup) = (bring_up-Emits api id config polkadot options bench).at [] in
      let setup' : All (IsSetup id) (up []).1 =
        subst (All (IsSetup id)) (sym (e ∙ append-nil new)) setup in
      continue-StartsAs given id (up []).0
        (λ r. author api r id >>= λ _. emit network_started >>= λ _. pure r.params.client) (up []).1
        setup'
        λ r h.
          let (same, slot, _, _) =
            (bring_up-Returns api id config polkadot options bench).holds [] r h in
          finish-StartsAs given id r.config.is_authority r.collator_key (aura_params api r id)
            r.params.client (up []).1 (ap (λ (c : ServiceConfig V). c.is_authority) (sym same))
            (λ k. author-timely r id k slot) setup'
