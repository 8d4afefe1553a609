-- ===== src/Frame/Currency.antt =====
-- The trait `Currency` of FRAME, which the market pallet takes as a parameter, and what its
-- documentation promises of a transfer.
use subtrate.Base.{ℕ, ◌+◌, ◌≤◌, ◌<◌, ◌≡◌, ◌≢◌, ◌⊎◌, inl, inr}
use subtrate.Frame.Dispatch.{AccountId, Result, ok, err}

pub data ExistenceRequirement : Type 0 where
  keep_alive allow_death : ExistenceRequirement

-- The operations that the pallet uses, over the type `L` of the ledger behind them. An error is a
-- number, which nothing reads.
pub record Currency (L : Type 0) : Type 0 where
  pub free_balance : AccountId → L → ℕ
  pub minimum_balance : ℕ
  pub transfer : AccountId → AccountId → ℕ → ExistenceRequirement → L → Result ℕ (Unit {0}) × L

-- The documented behaviour of `transfer`: a failure changes nothing; the receiver is credited with
-- the amount; the sender is debited by it, and what is left below the minimum balance goes with
-- the account if the account may die; nobody else is touched; a transfer to oneself moves nothing.
pub record IsCurrency {L : Type 0} (c : Currency L) : Type 0 where
  pub transfer_fails :
      (from to v : ℕ) (r : ExistenceRequirement) (l : L) (e : ℕ)
      → (c.transfer from to v r l).0 ≡ err e
      → (c.transfer from to v r l).1 ≡ l
  pub transfer_credits :
      (from to v : ℕ) (r : ExistenceRequirement) (l : L)
      → from ≢ to
      → (c.transfer from to v r l).0 ≡ ok tt
      → c.free_balance to (c.transfer from to v r l).1 ≡ c.free_balance to l + v
  pub transfer_keeps :
      (from to v : ℕ) (l : L)
      → from ≢ to
      → (c.transfer from to v keep_alive l).0 ≡ ok tt
      → c.free_balance from (c.transfer from to v keep_alive l).1 + v ≡ c.free_balance from l
  pub transfer_debits :
      (from to v : ℕ) (l : L)
      → from ≢ to
      → (c.transfer from to v allow_death l).0 ≡ ok tt
      → (c.free_balance from (c.transfer from to v allow_death l).1 + v ≡ c.free_balance from l)
        ⊎ ((v ≤ c.free_balance from l) × (c.free_balance from l < v + c.minimum_balance))
  pub transfer_spares :
      (from to v a : ℕ) (r : ExistenceRequirement) (l : L)
      → a ≢ from
      → a ≢ to
      → c.free_balance a (c.transfer from to v r l).1 ≡ c.free_balance a l
  pub transfer_to_self :
      (a v : ℕ) (r : ExistenceRequirement) (l : L)
      → c.free_balance a (c.transfer a a v r l).1 ≡ c.free_balance a l

-- A result is an error or the one success.
pub Result-cases : {E : Type 0} (r : Result E (Unit {0})) → (r ≡ ok tt) ⊎ ((e : E) × (r ≡ err e))
Result-cases (ok tt) = inl (λ i. ok tt)
Result-cases (err e) = inr (e, λ i. err e)
