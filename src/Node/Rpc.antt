-- ===== src/Node/Rpc.antt =====
-- The RPC extensions (node/src/rpc.rs), over the modules of the libraries, of type `M`.
use Prim.Native.String.{String}
use subtrate.Frame.Dispatch.{Result, ok, err}
use subtrate.Node.Service.Types.{FullDeps}

pub record RpcApi (V M : Type 0) : Type 0 where
  pub new : M
  -- `merge` refuses a module with a method that is there already
  pub merge : M → M → Result String M
  pub system : V → V → M
  pub transaction_payment : V → M

unfoldable pub create_full : {V M : Type 0} → RpcApi V M → FullDeps V → Result String M
create_full api deps = elim (api.merge api.new (api.system deps.client deps.pool)) [
  | ok m ↦ api.merge m (api.transaction_payment deps.client)
  | err e ↦ err e
]
