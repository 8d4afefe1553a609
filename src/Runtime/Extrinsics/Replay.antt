-- ===== src/Runtime/Extrinsics/Replay.antt =====
-- A transaction is let through once (`SignedExtra` of runtime/src/lib.rs, with the check of the
-- nonce and the payment among its extensions).
use mathlib.Core.Option.{some-injective}
use subtrate.Base.{
  ◌++◌, ◌+◌, ◌≤◌, ◌<◌, ◌≡◌, refl, sym, ap, ◌∙◌, Option-cases, inl, inr, none, some, List, [], ◌∷◌,
  arith, u32_max,
}
use subtrate.Frame.Dispatch.{AccountId}
use subtrate.Runtime.Extrinsics.{
  ExtensionApi, signed_extra, pre_dispatch_all, AccountView, Leaves, IsExtensionApi,
}

module _ {S T X : Type 0} (api : ExtensionApi S T X) (v : AccountView S T) where
  -- The state after one extension, and after the rest.
  split :
      (x : X) (xs : List X) (tx : T) (s t : S)
      → pre_dispatch_all api (x ∷ xs) tx s ≡ some t
      → (u : S) × (api.pre_dispatch x tx s ≡ some u) × (pre_dispatch_all api xs tx u ≡ some t)
  unfolding pre_dispatch_all
  split x xs tx s t h = ground arith

  -- What extensions that leave everything leave.
  abbrev Same : T → S → S → Type 0
  Same tx s t =
      ((a : AccountId) → v.nonce_of a t ≡ v.nonce_of a s)
      × ((a : AccountId) → v.balance_of a t ≡ v.balance_of a s)
      × (v.fee tx t ≡ v.fee tx s)

  abbrev AllLeave : List X → Type 0
  AllLeave [] = Unit
  AllLeave (x ∷ xs) = Leaves api v x × AllLeave xs

  leave_all :
      (xs : List X) (tx : T) (s t : S)
      → AllLeave xs
      → pre_dispatch_all api xs tx s ≡ some t
      → Same tx s t
  unfolding pre_dispatch_all
  leave_all [] tx s t leave h =
      let same = some-injective s t h in
      (
        λ a. ap (v.nonce_of a) (sym same),
        λ a. ap (v.balance_of a) (sym same),
        ap (v.fee tx) (sym same),
      )
  leave_all (x ∷ xs) tx s t (leaves, leave) h =
      let (u, first, rest) = split x xs tx s t h in
      let (nonces, balances, fees) = leave_all xs tx u t leave rest in
      (
        λ a. nonces a ∙ leaves.nonces tx s u a first,
        λ a. balances a ∙ leaves.balances tx s u a first,
        fees ∙ leaves.fees tx s u first,
      )

  split_append :
      (xs ys : List X) (tx : T) (s t : S)
      → pre_dispatch_all api (xs ++ ys) tx s ≡ some t
      → (u : S) × (pre_dispatch_all api xs tx s ≡ some u) × (pre_dispatch_all api ys tx u ≡ some t)
  unfolding pre_dispatch_all
  split_append [] ys tx s t h = (s, refl, h)
  split_append (x ∷ xs) ys tx s t h =
      let (u, first, rest) = split x (xs ++ ys) tx s t h in
      let (u', before, after) = split_append xs ys tx u t rest in (u', rw first before, after)

  abbrev early : List X
  early =
      api.check_non_zero_sender ∷ api.check_spec_version ∷ api.check_tx_version ∷ api.check_genesis
      ∷ api.check_era ∷ []

  abbrev late : List X
  late = api.storage_weight_reclaim ∷ api.check_metadata_hash ∷ []

  module _ (laws : IsExtensionApi api v) where
    early-leave : AllLeave early
    early-leave = (
      laws.non_zero_sender,
      (laws.spec_version, (laws.tx_version, (laws.genesis, (laws.era, tt)))),
    )

    -- The four parts of the way, with the states between them.
    parts :
        (tx : T) (s t : S)
        → pre_dispatch_all api (signed_extra api) tx s ≡ some t
        → (a b c d : S) × Same tx s a
          × (api.pre_dispatch api.check_nonce tx a ≡ some b)
          × Same tx b c
          × (api.pre_dispatch api.charge_transaction_payment tx c ≡ some d)
          × Same tx d t
    unfolding signed_extra
    parts tx s t h =
        let (a, first, rest) =
          split_append early
            (api.check_nonce ∷ api.check_weight ∷ api.charge_transaction_payment ∷ late) tx s t h in
        let (b, nonce, rest') =
          split api.check_nonce (api.check_weight ∷ api.charge_transaction_payment ∷ late) tx a t
            rest in
        let (c, weight, rest'') =
          split_append (api.check_weight ∷ []) (api.charge_transaction_payment ∷ late) tx b t
            rest' in
        let (d, charge, last) = split api.charge_transaction_payment late tx c t rest'' in
        (
          a,
          b,
          c,
          d,
          leave_all early tx s a early-leave first,
          nonce,
          leave_all (api.check_weight ∷ []) tx b c (laws.weight, tt) weight,
          charge,
          leave_all late tx d t (laws.reclaim, (laws.metadata_hash, tt)) last,
        )

    let_through-nonce :
        (tx : T) (s t : S)
        → pre_dispatch_all api (signed_extra api) tx s ≡ some t
        → v.nonce tx ≡ v.nonce_of (v.signer tx) s
    let_through-nonce tx s t h =
        let (a, b, c, d, same, nonce, same', charge, same'') = parts tx s t h in
        laws.nonce-checked tx a b nonce ∙ same.0 (v.signer tx)

    -- A transaction that is let through has the nonce of its signer, uses up this one nonce, and
    -- has paid its fee once; and it is refused in every state that has not gone back behind that
    -- nonce. The nonce before is smaller than the largest `u32`.
    pub let_through_once :
        (tx : T) (s t : S)
        → pre_dispatch_all api (signed_extra api) tx s ≡ some t
        → v.nonce_of (v.signer tx) s < u32_max
        → (v.nonce tx ≡ v.nonce_of (v.signer tx) s)
          × (v.nonce_of (v.signer tx) t ≡ v.nonce_of (v.signer tx) s + 1)
          × (v.balance_of (v.signer tx) t + v.fee tx s ≡ v.balance_of (v.signer tx) s)
          × ((u : S)
              → v.nonce_of (v.signer tx) t ≤ v.nonce_of (v.signer tx) u
              → pre_dispatch_all api (signed_extra api) tx u ≡ none)
    let_through_once tx s t h small =
        let who = v.signer tx in
        let (a, b, c, d, (n, m, f), nonce, (n', m', f'), charge, (n'', m'', f'')) =
          parts tx s t h in
        let used = laws.nonce-used tx a b nonce (rw (n who) small) in
        let next : v.nonce_of who t ≡ v.nonce_of who s + 1 =
          n'' who
          ∙ laws.charge-nonces tx c d who charge
          ∙ n' who
          ∙ used
          ∙ ap (λ k. k + 1) (n who) in
        let same_fee : v.fee tx c ≡ v.fee tx s = f' ∙ laws.nonce-fees tx a b nonce ∙ f in
        let same_balance : v.balance_of who c ≡ v.balance_of who s =
          m' who ∙ laws.nonce-balances tx a b who nonce ∙ m who in
        let paid = laws.charged tx c d charge in
        let own = let_through-nonce tx s t h in
        (
          own,
          next,
          ap (λ k. k + v.fee tx s) (m'' who)
              ∙ ap (λ k. v.balance_of who d + k) (sym same_fee)
              ∙ paid
              ∙ same_balance,
          λ u later. elim (Option-cases (pre_dispatch_all api (signed_extra api) tx u)) [
            | inl e ↦ e
            | inr (w, e) ↦ let again = let_through-nonce tx u w e in absurd (omega arith)
          ],
        )
