-- ===== src/CustomPallet/Token.antt =====
-- A currency to try the market pallet (pallets/custom-pallet/src/lib.rs) on: balances as a
-- function, with a minimum balance of 2 below which an account is removed.
use subtrate.Base.{ℕ, ◌+◌, ◌-◌, ◌≡◌, ◌≢◌, arith, ltb, ◌==◌, if◌then◌else◌}
use subtrate.Frame.Dispatch.{AccountId, Result, ok, err}
use subtrate.Frame.Currency.{Currency, IsCurrency, ExistenceRequirement, keep_alive, allow_death}

abbrev pub Balances : Type 0
Balances = AccountId → ℕ

abbrev pub least : ℕ
least = 2

abbrev move : ℕ → ℕ → ℕ → Balances → Balances
move from to v l a =
    if a == from
    then (if ltb (l from - v) least then 0 else l from - v)
    else if a == to
    then l to + v
    else l a

abbrev pub send : ℕ → ℕ → ℕ → ExistenceRequirement → Balances → Result ℕ (Unit {0}) × Balances
send from to v keep_alive l =
    if from == to
    then (ok tt, l)
    else if ltb (l from) (v + least)
    then (err 0, l)
    else if ltb (l to + v) least
    then (err 1, l)
    else (ok tt, move from to v l)
send from to v allow_death l =
    if from == to
    then (ok tt, l)
    else if ltb (l from) v
    then (err 0, l)
    else if ltb (l to + v) least
    then (err 1, l)
    else (ok tt, move from to v l)

abbrev pub token : Currency Balances
token = record { free_balance = λ a l. l a; minimum_balance = least; transfer = send }

send_fails :
    (from to v : ℕ) (r : ExistenceRequirement) (l : Balances) (e : ℕ)
    → (send from to v r l).0 ≡ err e
    → (send from to v r l).1 ≡ l
send_fails from to v keep_alive l e h = ground arith
send_fails from to v allow_death l e h = ground arith

send_credits :
    (from to v : ℕ) (r : ExistenceRequirement) (l : Balances)
    → from ≢ to
    → (send from to v r l).0 ≡ ok tt
    → (send from to v r l).1 to ≡ l to + v
send_credits from to v keep_alive l ne h = ground arith
send_credits from to v allow_death l ne h = ground arith

send_spares :
    (from to v a : ℕ) (r : ExistenceRequirement) (l : Balances)
    → a ≢ from
    → a ≢ to
    → (send from to v r l).1 a ≡ l a
send_spares from to v a keep_alive l ne ne' = ground arith
send_spares from to v a allow_death l ne ne' = ground arith

send_to_self : (a v : ℕ) (r : ExistenceRequirement) (l : Balances) → (send a a v r l).1 a ≡ l a
send_to_self a v keep_alive l = ground arith
send_to_self a v allow_death l = ground arith

pub token-IsCurrency : IsCurrency token
token-IsCurrency = record {
  transfer_fails = send_fails;
  transfer_credits = send_credits;
  transfer_keeps = λ from to v l ne h. ground arith;
  transfer_debits = λ from to v l ne h. ground arith;
  transfer_spares = send_spares;
  transfer_to_self = send_to_self;
}
