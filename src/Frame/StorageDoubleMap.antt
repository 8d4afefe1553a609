-- ===== src/Frame/StorageDoubleMap.antt =====
-- The storage map by two keys as an association list, with the entries under the first key.
use subtrate.Base.{
  ℕ, ◌+◌, ◌≤◌, ◌≡◌, refl, Bool, true, false, Option, none, some, List, [], ◌∷◌, arith, ◌==◌, ◌&&◌,
  if◌then◌else◌, length, count_if,
}

abbrev pub StorageDoubleMap : Type 0 → Type 0
StorageDoubleMap V = List (ℕ × ℕ × V)

module _ {V : Type 0} where
  unfoldable pub get : ℕ → ℕ → StorageDoubleMap V → Option V
  get k j [] = none
  get k j ((k', j', v) ∷ m) = if k' == k && j' == j then some v else get k j m

  unfoldable pub contains_key : ℕ → ℕ → StorageDoubleMap V → Bool
  contains_key k j m = elim (get k j m) [ none ↦ false | some _ ↦ true ]

  unfoldable pub insert : ℕ → ℕ → V → StorageDoubleMap V → StorageDoubleMap V
  insert k j v [] = (k, j, v) ∷ []
  insert k j v ((k', j', w) ∷ m) =
      if k' == k && j' == j then (k, j, v) ∷ m else (k', j', w) ∷ insert k j v m

  -- The entries under `k`, in the order of insertion.
  unfoldable pub prefix : ℕ → StorageDoubleMap V → List (ℕ × V)
  prefix k [] = []
  prefix k ((k', j, v) ∷ m) = if k' == k then (j, v) ∷ prefix k m else prefix k m

  pub get-insert :
      (k j k' j' : ℕ) (v : V) (m : StorageDoubleMap V)
      → get k' j' (insert k j v m) ≡ (if k == k' && j == j' then some v else get k' j' m)
  unfolding get insert
  get-insert k j k' j' v [] = refl
  get-insert k j k' j' v ((a, b, w) ∷ m) = ground (arith, get-insert k j k' j' v m)

  -- A new entry is counted under its own first key, and no other key notices.
  pub count_if-prefix-insert :
      (p : ℕ × V → Bool) (k j k' : ℕ) (v : V) (m : StorageDoubleMap V)
      → contains_key k j m ≡ false
      → count_if p (prefix k' (insert k j v m))
        ≡ (if k == k' then (if p (j, v) then 1 else 0) else 0) + count_if p (prefix k' m)
  unfolding contains_key get insert prefix
  count_if-prefix-insert p k j k' v [] h = ground arith
  count_if-prefix-insert p k j k' v ((a, b, w) ∷ m) h =
      ground (arith, count_if-prefix-insert p k j k' v m)

  pub length-insert :
      (k j : ℕ) (v : V) (m : StorageDoubleMap V)
      → contains_key k j m ≡ false
      → length (insert k j v m) ≡ length m + 1
  unfolding contains_key get insert
  length-insert k j v [] h = ground arith
  length-insert k j v ((a, b, w) ∷ m) h = ground (arith, length-insert k j v m)

  pub length-prefix-le : (k : ℕ) (m : StorageDoubleMap V) → length (prefix k m) ≤ length m
  unfolding prefix
  length-prefix-le k [] = omega arith
  length-prefix-le k ((a, b, w) ∷ m) = ground (arith, length-prefix-le k m)
