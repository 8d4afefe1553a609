-- ===== src/Runtime/Extrinsics/Examples.antt =====
-- A transaction (runtime/src/lib.rs) at concrete extensions: the state holds the nonce and the
-- balance of the one account, and a transaction is its nonce with its fee.
use subtrate.Base.{ℕ, ◌+◌, ◌-◌, ◌≤◌, ◌≡◌, refl, Option, none, some, ◌==◌, leb, if◌then◌else◌, arith}
use subtrate.Runtime.Extrinsics.{
  ExtensionApi, signed_extra, pre_dispatch_all, AccountView, Leaves, IsExtensionApi,
}
use subtrate.Runtime.Extrinsics.Replay.{let_through_once}

data Extension : Type 0 where
  passes : Extension
  nonce : Extension
  payment : Extension

abbrev checked : Extension → ℕ × ℕ → ℕ × ℕ → Option (ℕ × ℕ)
checked passes tx s = some s
checked nonce tx s = if tx.0 == s.0 then some (s.0 + 1, s.1) else none
checked payment tx s = if leb tx.1 s.1 then some (s.0, s.1 - tx.1) else none

abbrev extensions : ExtensionApi (ℕ × ℕ) (ℕ × ℕ) Extension
extensions = record {
  check_non_zero_sender = passes;
  check_spec_version = passes;
  check_tx_version = passes;
  check_genesis = passes;
  check_era = passes;
  check_nonce = nonce;
  check_weight = passes;
  charge_transaction_payment = payment;
  storage_weight_reclaim = passes;
  check_metadata_hash = passes;
  pre_dispatch = checked;
}

abbrev view : AccountView (ℕ × ℕ) (ℕ × ℕ)
view = record {
  signer = λ tx. 0;
  nonce = λ tx. tx.0;
  fee = λ tx s. tx.1;
  nonce_of = λ a s. s.0;
  balance_of = λ a s. s.1;
}

passes-Leaves : Leaves extensions view passes
passes-Leaves = record {
  nonces = λ tx s t a h. ground arith;
  balances = λ tx s t a h. ground arith;
  fees = λ tx s t h. refl;
}

extensions-IsExtensionApi : IsExtensionApi extensions view
extensions-IsExtensionApi = record {
  non_zero_sender = passes-Leaves;
  spec_version = passes-Leaves;
  tx_version = passes-Leaves;
  genesis = passes-Leaves;
  era = passes-Leaves;
  weight = passes-Leaves;
  reclaim = passes-Leaves;
  metadata_hash = passes-Leaves;
  nonce-checked = λ tx s t h. ground arith;
  nonce-used = λ tx s t h small. ground arith;
  nonce-balances = λ tx s t a h. ground arith;
  nonce-fees = λ tx s t h. refl;
  charged = λ tx s t h. ground arith;
  charge-nonces = λ tx s t a h. ground arith;
}

-- The account has used three nonces and pays 5 out of 20.
let_through_once_example :
    (view.nonce (3, 5) ≡ view.nonce_of 0 (3, 20))
    × (view.nonce_of 0 (4, 15) ≡ view.nonce_of 0 (3, 20) + 1)
    × (view.balance_of 0 (4, 15) + view.fee (3, 5) (3, 20) ≡ view.balance_of 0 (3, 20))
    × ((u : ℕ × ℕ)
        → view.nonce_of 0 (4, 15) ≤ view.nonce_of 0 u
        → pre_dispatch_all extensions (signed_extra extensions) (3, 5) u ≡ none)
unfolding signed_extra pre_dispatch_all
let_through_once_example =
    let_through_once extensions view extensions-IsExtensionApi (3, 5) (3, 20) (4, 15) refl
      (omega arith)
