-- ===== src/Node/RelayChain.antt =====
-- What the relay chain's part of the command line falls back on (`RelayChainCli` of
-- node/src/cli.rs and node/src/command.rs).
use Prim.Native.String.{String}
use text.Mathlib.Text.{◌==◌ as ◌str_eq◌}
use text.Mathlib.TextEquality.{eq_iff}
use mathlib.Core.Option
use subtrate.Base.{
  ◌≡◌, ap, ◌≢◌, ◌⊎◌, ◌↔◌, inl, inr, arith, Bool, Bool-cases, some, Option, List, if◌then◌else◌,
}
use subtrate.Frame.Dispatch.{Result, ok, err}
use subtrate.Node.Command.{
  RelayChainCli, CliConfiguration, Configuration, CliApi, try_get, new, chain_id, unwrap_or_default,
  relay_chain_of, relay_chain_configuration,
}

ok-injective : {A : Type 0} {a b : A} → Path (Result String A) (ok a) (ok b) → a ≡ b
ok-injective {A} {a} p = ap {A = Result String A} (λ r. elim r [ ok x ↦ x | err e ↦ a ]) p

chosen : Result String String → Option String → Result String String
chosen r own = elim r [
  | ok id ↦ ok (if id str_eq "" then unwrap_or_default own else id)
  | err e ↦ err e
]

chosen_iff :
    (r : Result String String) (own : Option String) (id : String)
    → (chosen r own ≡ ok id)
      ↔ (((r ≡ ok id) × (id ≢ "")) ⊎ ((r ≡ ok "") × (id ≡ unwrap_or_default own)))
unfolding chosen
chosen_iff (err e) own id = (λ h. grind arith, λ c. grind arith)
chosen_iff (ok i) own id =
    let same = eq_iff i "" in
    elim (Bool-cases (i str_eq "")) [
      | inl e ↦ (
        λ h. inr (ap ok (same.0 e), grind arith),
        λ c. elim c [ inl (p, n) ↦ grind arith | inr (p, q) ↦ grind arith ],
      )
      | inr e ↦ (
        λ h. inl (grind arith, λ p. grind arith),
        λ c. elim c [ inl (p, n) ↦ grind arith | inr (p, q) ↦ grind arith ],
      )
    ]

module _ {D V : Type 0} (api : CliApi D V)
    (shared_base_path : V → Result String (Option String)) where
  -- What `RelayChainCli::new` gives as command line for the relay chain.
  abbrev pub relay_chain : Configuration D → List String → Option (CliConfiguration V)
  relay_chain config args =
      Option.map (relay_chain_configuration shared_base_path) (new api config args)

  abbrev used_cli : Configuration D → CliConfiguration V → RelayChainCli V
  used_cli config parsed = record {
    base = parsed;
    own_chain_id = relay_chain_of api (api.get_extension config.chain_spec);
    own_base_path = some (api.join config.base_path "polkadot");
  }

  -- If the parser takes the arguments, the identifier of the relay chain's specification is the one
  -- that they name, or else, when the arguments name the empty one, the relay chain of the
  -- extension in the parachain's specification, which is empty without an extension; it is no
  -- other.
  pub chain_id-ok_iff :
      (config : Configuration D) (args : List String) (parsed : CliConfiguration V) (is_dev : Bool)
      (id : String)
      → api.parse_from args ≡ some parsed
      → (used : CliConfiguration V) × (relay_chain config args ≡ some used)
        × ((used.chain_id is_dev ≡ ok id) ↔ (
            ((parsed.chain_id is_dev ≡ ok id) × (id ≢ ""))
            ⊎ ((parsed.chain_id is_dev ≡ ok "")
                × (id
                    ≡ unwrap_or_default
                        (relay_chain_of api (api.get_extension config.chain_spec))))))
  unfolding relay_chain_configuration chain_id new try_get chosen
  chain_id-ok_iff config args parsed is_dev id taken = (
    relay_chain_configuration shared_base_path (used_cli config parsed),
    ap
        (λ o.
          Option.map (relay_chain_configuration shared_base_path) (Option.map (used_cli config) o))
        taken,
    chosen_iff (parsed.chain_id is_dev) (relay_chain_of api (api.get_extension config.chain_spec))
        id,
  )
