-- ===== src/Runtime/Pallets.antt =====
-- The composition of the runtime (`mod runtime` of runtime/src/lib.rs): the pallets with the
-- indices by which calls and events are encoded.
use mathlib.Core.Option.{some-injective}
use subtrate.Base.{
  ℕ, ◌≡◌, refl, sym, ap, ◌∙◌, Option, none, some, List, [], ◌∷◌, ◌==◌, if◌then◌else◌,
}

pub data Pallet : Type 0 where
  system : Pallet
  parachain_system : Pallet
  timestamp : Pallet
  parachain_info : Pallet
  balances : Pallet
  transaction_payment : Pallet
  sudo : Pallet
  authorship : Pallet
  collator_selection : Pallet
  session : Pallet
  aura : Pallet
  aura_ext : Pallet
  xcmp_queue : Pallet
  polkadot_xcm : Pallet
  cumulus_xcm : Pallet
  message_queue : Pallet
  template_pallet : Pallet
  utility : Pallet
  custom_pallet : Pallet

-- `#[runtime::pallet_index(..)]`
unfoldable pub pallet_index : Pallet → ℕ
pallet_index system = 0
pallet_index parachain_system = 1
pallet_index timestamp = 2
pallet_index parachain_info = 3
pallet_index balances = 10
pallet_index transaction_payment = 11
pallet_index sudo = 15
pallet_index authorship = 20
pallet_index collator_selection = 21
pallet_index session = 22
pallet_index aura = 23
pallet_index aura_ext = 24
pallet_index xcmp_queue = 30
pallet_index polkadot_xcm = 31
pallet_index cumulus_xcm = 32
pallet_index message_queue = 33
pallet_index template_pallet = 50
pallet_index utility = 51
pallet_index custom_pallet = 52

-- The first pallet of a list with a given index.
unfoldable pallet_at : ℕ → List Pallet → Option Pallet
pallet_at n [] = none
pallet_at n (p ∷ ps) = if pallet_index p == n then some p else pallet_at n ps

abbrev pallets : List Pallet
pallets =
    system ∷ parachain_system ∷ timestamp ∷ parachain_info ∷ balances ∷ transaction_payment ∷ sudo
    ∷ authorship ∷ collator_selection ∷ session ∷ aura ∷ aura_ext ∷ xcmp_queue ∷ polkadot_xcm
    ∷ cumulus_xcm ∷ message_queue ∷ template_pallet ∷ utility ∷ custom_pallet ∷ []

pallet_at-index : (p : Pallet) → pallet_at (pallet_index p) pallets ≡ some p
unfolding pallet_index pallet_at
pallet_at-index system = refl
pallet_at-index parachain_system = refl
pallet_at-index timestamp = refl
pallet_at-index parachain_info = refl
pallet_at-index balances = refl
pallet_at-index transaction_payment = refl
pallet_at-index sudo = refl
pallet_at-index authorship = refl
pallet_at-index collator_selection = refl
pallet_at-index session = refl
pallet_at-index aura = refl
pallet_at-index aura_ext = refl
pallet_at-index xcmp_queue = refl
pallet_at-index polkadot_xcm = refl
pallet_at-index cumulus_xcm = refl
pallet_at-index message_queue = refl
pallet_at-index template_pallet = refl
pallet_at-index utility = refl
pallet_at-index custom_pallet = refl

-- Two pallets with one index are the same: an index names one pallet.
pub pallet_index_injective : (p q : Pallet) → pallet_index p ≡ pallet_index q → p ≡ q
pallet_index_injective p q h =
    some-injective p q
      (sym (pallet_at-index p) ∙ ap (λ n. pallet_at n pallets) h ∙ pallet_at-index q)
