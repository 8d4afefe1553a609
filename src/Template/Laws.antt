-- ===== src/Template/Laws.antt =====
-- The calls of the template pallet (pallets/template/src/lib.rs) in sequence.
use subtrate.Base.{
  ap, ◌∙◌, ◌∷◌, refl, ◌↔◌, ℕ, zero, suc, ◌+◌, ◌≤◌, ◌<◌, ◌≡◌, some, none, arith, u32_max,
}
use subtrate.Frame.Dispatch.{AccountId, signed, ok, err, pallet_error}
use subtrate.Template.Types.{Storage, none_value, storage_overflow, something_stored}
use subtrate.Template.Calls.{
  do_something, cause_error, do_something_call, cause_error_call, run_call, dispatch,
}

-- `cause_error`, dispatched a number of times.
unfoldable pub cause_errors : ℕ → AccountId → Storage → Storage
cause_errors zero who s = s
cause_errors (suc n) who s = cause_errors n who (dispatch (signed who) cause_error_call s).1

abbrev pub stored : ℕ → Storage → Storage
stored n s = record s { something = some (record { block_number = n }) }

cause_error_step :
    (who n : ℕ) (s : Storage)
    → n < u32_max
    → dispatch (signed who) cause_error_call (stored n s) ≡ (ok tt, stored (n + 1) s)
unfolding dispatch run_call cause_error
cause_error_step who n s h = ground arith

counted :
    (k who n : ℕ) (s : Storage)
    → n + k ≤ u32_max
    → cause_errors k who (stored n s) ≡ stored (n + k) s
unfolding cause_errors
counted zero who n s h = ap (λ x. stored x s) (omega arith)
counted (suc k) who n s h =
    rw (cause_error_step who n s (omega arith))
      (counted k who (n + 1) s (omega arith) ∙ ap (λ x. stored x s) (omega arith))

abbrev noted : AccountId → ℕ → Storage → Storage
noted a bn s = record s { events = something_stored bn a ∷ s.events }

do_something_step :
    (a bn : ℕ) (s : Storage)
    → dispatch (signed a) (do_something_call bn) s ≡ (ok tt, stored bn (noted a bn s))
unfolding dispatch run_call do_something
do_something_step a bn s = refl

cause_error_full :
    (b n : ℕ) (s : Storage)
    → ((dispatch (signed b) cause_error_call (stored n s)).0 ≡ err (pallet_error storage_overflow))
      ↔ (u32_max ≤ n)
unfolding dispatch run_call cause_error
cause_error_full b n s = ground arith

-- No dispatch of `cause_error` stores a number where there is none: until a `do_something` it is
-- refused, however often it is tried, and the storage stays as it is.
pub cause_errors_before_do_something :
    (a b k : ℕ) (s : Storage)
    → s.something ≡ none
    → (cause_errors k a s ≡ s)
      × ((dispatch (signed b) cause_error_call s).0 ≡ err (pallet_error none_value))
unfolding cause_errors dispatch run_call cause_error
cause_errors_before_do_something a b zero s h = (refl, ground arith)
cause_errors_before_do_something a b (suc k) s h =
    let same : (dispatch (signed a) cause_error_call s).1 ≡ s = ground arith in
    rw same (cause_errors_before_do_something a b k s h)

-- After `do_something` with a number, `cause_error` adds one each time it is dispatched, deposits
-- no event, and fails with an overflow exactly when the number has reached the largest `u32`.
pub do_something_then_cause_errors :
    (a b bn k : ℕ) (s : Storage)
    → bn + k ≤ u32_max
    → let t = cause_errors k b (dispatch (signed a) (do_something_call bn) s).1 in
      (t.something ≡ some (record { block_number = bn + k }))
      × (t.events ≡ something_stored bn a ∷ s.events)
      × (((dispatch (signed b) cause_error_call t).0 ≡ err (pallet_error storage_overflow))
          ↔ (u32_max ≤ bn + k))
do_something_then_cause_errors a b bn k s h =
    rw (do_something_step a bn s) (
      rw (counted k b bn (noted a bn s) h) (refl, refl, cause_error_full b (bn + k) (noted a bn s)))
