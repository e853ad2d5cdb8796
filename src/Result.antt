-- ===== src/Result.antt =====
-- controllers/result/result.go: what a step of the reconciliation asks the main loop to do.
-- `Output` of a step that continues panics in the source: it is `none`. Durations are in seconds.
use rabbitmq_operator.Prelude.{ℕ, Bool, true, false, Option, none, some, ◌≡◌, refl, ◌⊎◌, inl, inr}
use rabbitmq_operator.Kube.{Error}

-- `ctrl.Result`
pub record CtrlResult : Type 0 where
  pub requeue : Bool
  pub requeue_after : ℕ

pub data ReconcileResult : Type 0 where
  continue_reconcile : ReconcileResult
  done : ReconcileResult
  call_back_soon : ℕ → ReconcileResult
  error_out : Error → ReconcileResult
  call_back_soon_error : ℕ → Error → ReconcileResult

abbrev pub empty_result : CtrlResult
empty_result = record { requeue = false; requeue_after = 0 }

unfoldable pub completed : ReconcileResult → Bool
completed continue_reconcile = false
completed _ = true

unfoldable pub output : ReconcileResult → Option (CtrlResult × Option Error)
output continue_reconcile = none
output done = some (record { requeue = true; requeue_after = 30 }, none)
output (call_back_soon after) = some (record { requeue = true; requeue_after = after }, none)
output (error_out e) = some (empty_result, some e)
output (call_back_soon_error after e) =
    some (record { requeue = true; requeue_after = after }, some e)

unfoldable pub is_done : ReconcileResult → Bool
is_done done = true
is_done _ = false

unfoldable pub is_error : ReconcileResult → Bool
is_error (error_out _) = true
is_error (call_back_soon_error _ _) = true
is_error _ = false

unfoldable pub is_requeue : ReconcileResult → Bool
is_requeue (call_back_soon _) = true
is_requeue (call_back_soon_error _ _) = true
is_requeue _ = false

unfoldable pub get_error : ReconcileResult → Option Error
get_error (error_out e) = some e
get_error (call_back_soon_error _ e) = some e
get_error _ = none

abbrev RequestsRetry : CtrlResult × Option Error → Type 0
RequestsRetry r = (r.0.requeue ≡ true) ⊎ ((e : Error) × (r.1 ≡ some e))

-- A step either is not completed and has no output (`Output` would panic), or it is completed and has
-- one, which carries the error of `GetError` and makes the controller run again, by a requeue or by
-- that error.
pub output_contract :
    (r : ReconcileResult)
    → ((completed r ≡ false) × (output r ≡ none))
      ⊎ ((o : CtrlResult × Option Error) × (completed r ≡ true)
          × (output r ≡ some o)
          × (o.1 ≡ get_error r)
          × RequestsRetry o)
unfolding completed output get_error
output_contract continue_reconcile = inl (refl, refl)
output_contract done = inr (_, refl, refl, refl, inl refl)
output_contract (call_back_soon after) = inr (_, refl, refl, refl, inl refl)
output_contract (error_out x) = inr (_, refl, refl, refl, inr (x, refl))
output_contract (call_back_soon_error after x) = inr (_, refl, refl, refl, inl refl)
