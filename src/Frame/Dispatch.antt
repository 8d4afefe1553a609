-- ===== src/Frame/Dispatch.antt =====
-- A dispatchable call: origins, results, and a monad of state and errors. What was written stays
-- written after an error, as in Rust; `transactional` is what rolls it back.
use subtrate.Base.{ℕ, ◌≡◌, Bool, true, false, Option, none, some, List, arith, length, leb}

-- Accounts are only compared, so an account identifier is a number.
abbrev pub AccountId : Type 0
AccountId = ℕ

-- `RawOrigin`
pub data Origin : Type 0 where
  root : Origin
  signed : AccountId → Origin
  unsigned : Origin

-- `DispatchError`, over the error type `E` of the pallet. The error of a currency is opaque.
pub data DispatchError (E : Type 0) : Type 0 where
  bad_origin : DispatchError E
  pallet_error : E → DispatchError E
  currency_error : ℕ → DispatchError E

pub data Result (E A : Type 0) : Type 0 where
  ok : A → Result E A
  err : E → Result E A

abbrev pub Action : Type 0 → Type 0 → Type 0 → Type 0
Action S E A = S → Result (DispatchError E) A × S

module _ {S E A : Type 0} where
  abbrev pub pure : A → Action S E A
  pure a s = (ok a, s)

  abbrev pub fail : DispatchError E → Action S E A
  fail e s = (err e, s)

  abbrev pub gets : (S → A) → Action S E A
  gets f s = (ok (f s), s)

  -- `ok_or(e)?` and `map_err(|_| e)?`
  abbrev pub ok_or : Option A → E → Action S E A
  ok_or none e = fail (pallet_error e)
  ok_or (some a) e = pure a

  -- `#[transactional]`: the storage is that of before the call, if the call fails.
  abbrev pub transactional : Action S E A → Action S E A
  transactional m s = let (r, s') = m s in elim r [ ok a ↦ (ok a, s') | err e ↦ (err e, s) ]

infixl 5 ◌>>=◌ ◌>>◌
abbrev pub ◌>>=◌ : {S E A B : Type 0} → Action S E A → (A → Action S E B) → Action S E B
◌>>=◌ m f s = let (r, s') = m s in elim r [ ok a ↦ f a s' | err e ↦ (err e, s') ]

abbrev pub ◌>>◌ : {S E A B : Type 0} → Action S E A → Action S E B → Action S E B
m >> k = m >>= λ _. k

module _ {S E : Type 0} where
  abbrev pub modify : (S → S) → Action S E (Unit {0})
  modify f s = (ok tt, f s)

  -- `ensure!`
  abbrev pub ensure : Bool → E → Action S E (Unit {0})
  ensure true e = pure tt
  ensure false e = fail (pallet_error e)

  abbrev pub ensure_signed : Origin → Action S E AccountId
  ensure_signed (signed who) = pure who
  ensure_signed root = fail bad_origin
  ensure_signed unsigned = fail bad_origin

  abbrev pub ensure_root : Origin → Action S E (Unit {0})
  ensure_root root = pure tt
  ensure_root (signed who) = fail bad_origin
  ensure_root unsigned = fail bad_origin

-- `Vec<A>::try_into::<BoundedVec<A, ConstU32<bound>>>()`
abbrev pub try_bound : {A : Type 0} → ℕ → List A → Option (List A)
try_bound bound xs = elim (leb (length xs) bound) [ true ↦ some xs | false ↦ none ]

module _ {S E A : Type 0} (m : Action S E A) (s : S) where
  -- A storage layer keeps the result.
  pub transactional-result : (transactional m s).0 ≡ (m s).0
  transactional-result = ground arith

  pub transactional-ok : (a : A) (t : S) → m s ≡ (ok a, t) → transactional m s ≡ (ok a, t)
  transactional-ok a t h = ground arith

  pub transactional-err :
      (e : DispatchError E) → (transactional m s).0 ≡ err e → (transactional m s).1 ≡ s
  transactional-err e h = ground arith
