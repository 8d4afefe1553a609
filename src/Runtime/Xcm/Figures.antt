-- ===== src/Runtime/Xcm/Figures.antt =====
-- The theorems on the weight and the price of messages (runtime/src/configs) at concrete libraries:
-- a message is its number of instructions with what its `Transact`s ask for, and a weigher its
-- unit with its limit.
use subtrate.Base.{
  ℕ, ◌+◌, ◌*◌, ◌-◌, ◌≤◌, ◌<◌, ◌≡◌, refl, ◌↔◌, Bool, ◌&&◌, leb, Option, none, some, if◌then◌else◌,
  arith, u64_max,
}
use subtrate.Runtime.Fees.{part_of}
use subtrate.Runtime.Limits.{runtime_block_weights}
use subtrate.Runtime.Figures.{
  Pair, weights, weights-IsLimitApi, defaults, time, fees, fees-IsFeeApi,
}
use subtrate.Runtime.Xcm.Barrier.{Location, relay_location}
use subtrate.Runtime.Xcm.Assets.{Asset, Fungibility, fungible, non_fungible}
use subtrate.Runtime.Xcm.Samples.{Location-discrete, decided}
use subtrate.Runtime.Xcm.Weighing.{
  WeigherApi, IsWeigherApi, IsServed, message_queue_service_weight, IsServed-iff, weigher,
}
use subtrate.Runtime.Xcm.Trading.{TraderApi, IsTraderApi, trader, buy_weight_iff}

abbrev pub Message : Type 0
Message = ℕ × Pair

abbrev asked : Pair → Message → Pair
asked unit m = (m.0 * unit.0 + m.1.0, m.0 * unit.1 + m.1.1)

abbrev few : Pair × ℕ → Message → Bool
few g m = leb m.0 g.1 && leb (asked g.0 m).0 u64_max && leb (asked g.0 m).1 u64_max

abbrev pub weighers : WeigherApi Pair Message (Pair × ℕ)
weighers = record {
  fixed_weight_bounds = λ unit most. (unit, most);
  weight = λ g m. if few g m then some (asked g.0 m) else none;
  instructions = λ m. m.0;
  transacts = λ m. m.1;
}

weighed_of :
    (unit a : Pair) (most : ℕ) (m : Message)
    → weighers.weight (unit, most) m ≡ some a
    → (m.0 ≤ most) × (a.0 ≡ m.0 * unit.0 + m.1.0) × (a.1 ≡ m.0 * unit.1 + m.1.1)
weighed_of unit a most m h = ground arith

weighers-IsWeigherApi : IsWeigherApi weights weighers
weighers-IsWeigherApi = record {
  weighed = λ unit a most m h. weighed_of unit a most m h;
  weighs = λ unit most m h t p. (asked unit m, ground arith);
}

-- A bare message of 28 instructions is not served, for the overhead of the queue.
IsServed-iff_example :
    let limits = runtime_block_weights weights (5000000000, 0) (125000000, 0) defaults in
    let service = message_queue_service_weight weights limits in
    (IsServed weights weighers service (50000000, 3517) (28, (0, 0))
      ↔ ((50000000 + 28 * 1000000000 + 0 ≤ 700000000000) × (3517 + 28 * 65536 + 0 ≤ 1835008)))
    × (28 < 28 → ¬ IsServed weights weighers service (50000000, 3517) (28, (0, 0)))
    × (0 < 3517 → 28 ≤ 28 → ¬ IsServed weights weighers service (50000000, 3517) (28, (0, 0)))
IsServed-iff_example =
    IsServed-iff weights weighers weights-IsLimitApi weighers-IsWeigherApi (5000000000, 0)
      (125000000, 0) defaults refl (50000000, 3517) (28, (0, 0))

abbrev left_of : ℕ → Fungibility ℕ → Option ℕ
left_of fee (fungible n) = if leb fee n then some (n - fee) else none
left_of fee (non_fungible v) = none

abbrev traders : TraderApi ℕ Pair (Unit {0}) ((Pair → ℕ) × Location ℕ)
traders = record {
  to_author = tt;
  using_components = λ fee l r. (fee, l);
  buy_weight = λ t a asset.
      if decided (Location-discrete asset.id t.1) then left_of (t.0 a) asset.amount else none;
}

left_iff :
    (fee rest : ℕ) (n : Fungibility ℕ) → (left_of fee n ≡ some rest) ↔ (n ≡ fungible (fee + rest))
left_iff fee rest (fungible n) = (λ h. ground arith, λ h. ground arith)
left_iff fee rest (non_fungible v) = (λ h. absurd (cc), λ h. absurd (cc))

only_if :
    {P : Type 0} (d : Dec P) (o : Option ℕ) (n : ℕ)
    → ((if decided d then o else none) ≡ some n) ↔ (P × (o ≡ some n))
only_if (yes p) o n = (λ h. (p, h), λ (x, h). h)
only_if (no p) o n = (λ h. absurd (cc), λ (x, h). absurd (p x))

traders-IsTraderApi : IsTraderApi weights fees time traders
traders-IsTraderApi = record {
  buy_iff = λ fee l r a asset rest h.
      let at = only_if (Location-discrete asset.id l) (left_of (fee a) asset.amount) rest in
      let left = left_iff (fee a) rest asset.amount in
      (
        λ e. let (same, rest_of) = at.0 e in (same, left.0 rest_of),
        λ (same, amount). at.1 (same, left.1 amount),
      );
}

-- Two instructions and a `Transact` for half a nanosecond, for 4 units, are paid with 20 million.
buy_weight_iff_example :
    (traders.buy_weight
        (trader weights fees time traders)
        (2000000500, 131072)
        (record { id = relay_location; amount = fungible 20000000 })
      ≡ some 3999998)
    ↔ (◌≡◌ {A = Asset ℕ}
        (record { id = relay_location; amount = fungible 20000000 })
        (record {
          id = relay_location;
          amount = fungible (2 * 7999999 + part_of 7999999 500 + 3999998);
        }))
unfolding weigher
buy_weight_iff_example =
    buy_weight_iff weights fees time fees-IsFeeApi traders traders-IsTraderApi weighers
      weights-IsLimitApi weighers-IsWeigherApi (2, (500, 0)) (2000000500, 131072)
      (record { id = relay_location; amount = fungible 20000000 }) 3999998 refl (omega arith)
      (omega arith)
