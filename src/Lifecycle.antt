-- ===== src/Lifecycle.antt =====
-- The order lifecycle store (src/OrderLifecycleStore.cpp, include/OrderLifecycleStore.hpp). The map
-- of records is an association list with one entry to an order, the set of applied keys a list with
-- no repetition. Every method returns the store and its result.
pub mod Methods
pub mod Events
pub mod Records
pub mod Frame
pub mod Effects
pub mod Calls
pub mod Idempotency
pub mod Trail
pub mod Invariant
pub mod History
pub mod Progress
pub mod Tests
use Prim.Native.String.{String}
use trade_bot.Base.{
  ℕ, ◌+◌, Bool, true, false, Option, none, some, List, [], ◌∷◌, ◌++◌, ◌&&◌, ◌||◌, not, ltb, leb,
  ◌==◌, if◌then◌else◌,
}
use trade_bot.Base.Int.{ℤ, pos, ◌+ℤ◌, ◌-ℤ◌, ltb_ℤ, eqb_ℤ, int64_max}
use trade_bot.Base.Text.{is_empty, contains, insert}
use trade_bot.Broker.{
  Decimal64, max_scale, OrderLifecycleState, created, risk_checked, submitted, accepted,
  partially_filled, filled, cancel_requested, canceled, expired, rejected, timeout, unknown,
  reconciled, FailureCategory, no_failure, CancelDisposition, cancel_accepted, cancel_rejected,
  already_filled, already_canceled, cancel_unknown, OrderRequest, OrderAcknowledgement,
  ExecutionEvent, CancelRequest, CancelResult,
}

pub data LifecycleApplyResult : Type 0 where
  applied duplicate unknown_order invalid_event invalid_transition : LifecycleApplyResult

pub record LifecycleAuditEntry : Type 0 where
  pub state : OrderLifecycleState
  pub reconciled_state : Option OrderLifecycleState
  pub event_key : String
  pub failure : FailureCategory
  pub reason : String
  pub timestamp_ns : ℕ
  pub sequence : ℕ

pub record OrderLifecycleRecord : Type 0 where
  pub request : OrderRequest
  pub state : OrderLifecycleState
  pub pre_cancel_state : OrderLifecycleState
  pub external_order_id : String
  pub filled_quantity : Decimal64
  pub remaining_quantity : Decimal64
  pub failure : FailureCategory
  pub reason : String
  pub last_timestamp_ns : ℕ
  pub last_sequence : ℕ
  pub reconciled_state : Option OrderLifecycleState
  pub audit_history : List LifecycleAuditEntry

pub record OrderLifecycleStore : Type 0 where
  pub records : List (ℕ × OrderLifecycleRecord)
  pub applied_event_keys : List String

abbrev pub empty_store : OrderLifecycleStore
empty_store = record { records = []; applied_event_keys = [] }

-- `std::unordered_map::find`, and a write through the iterator that it returned.
unfoldable pub lookup : ℕ → List (ℕ × OrderLifecycleRecord) → Option OrderLifecycleRecord
lookup id [] = none
lookup id ((k, r) ∷ rest) = if k == id then some r else lookup id rest

unfoldable pub replace :
    ℕ → OrderLifecycleRecord → List (ℕ × OrderLifecycleRecord) → List (ℕ × OrderLifecycleRecord)
replace id r [] = []
replace id r ((k, old) ∷ rest) = if k == id then (k, r) ∷ rest else (k, old) ∷ replace id r rest

unfoldable pub find : OrderLifecycleStore → ℕ → Option OrderLifecycleRecord
find store id = lookup id store.records

unfoldable pub event_is_older : OrderLifecycleRecord → ℕ → ℕ → Bool
event_is_older record' timestamp_ns sequence =
    if ltb 0 sequence && ltb 0 record'.last_sequence
    then leb sequence record'.last_sequence
    else ltb 0 timestamp_ns
      && ltb 0 record'.last_timestamp_ns
      && ltb timestamp_ns record'.last_timestamp_ns

unfoldable pub is_terminal : OrderLifecycleState → Bool
is_terminal filled = true
is_terminal canceled = true
is_terminal expired = true
is_terminal rejected = true
is_terminal reconciled = true
is_terminal _ = false

-- The states from which the `switch` of `canTransition` allows each target.
unfoldable pub fillable : OrderLifecycleState → Bool
fillable submitted = true
fillable accepted = true
fillable partially_filled = true
fillable cancel_requested = true
fillable timeout = true
fillable unknown = true
fillable _ = false

unfoldable pub cancelable : OrderLifecycleState → Bool
cancelable accepted = true
cancelable partially_filled = true
cancelable _ = false

unfoldable pub closable : OrderLifecycleState → Bool
closable accepted = true
closable partially_filled = true
closable cancel_requested = true
closable unknown = true
closable _ = false

unfoldable pub losable : OrderLifecycleState → Bool
losable submitted = true
losable accepted = true
losable partially_filled = true
losable cancel_requested = true
losable timeout = true
losable _ = false

unfoldable pub reconcilable : OrderLifecycleState → Bool
reconcilable unknown = true
reconcilable timeout = true
reconcilable cancel_requested = true
reconcilable partially_filled = true
reconcilable _ = false

unfoldable pub is_created : OrderLifecycleState → Bool
is_created created = true
is_created _ = false

unfoldable pub is_risk_checked : OrderLifecycleState → Bool
is_risk_checked risk_checked = true
is_risk_checked _ = false

unfoldable pub is_submitted : OrderLifecycleState → Bool
is_submitted submitted = true
is_submitted _ = false

unfoldable pub is_cancel_requested : OrderLifecycleState → Bool
is_cancel_requested cancel_requested = true
is_cancel_requested _ = false

unfoldable pub allowed_from : OrderLifecycleState → OrderLifecycleState → Bool
unfolding is_created is_risk_checked is_submitted fillable cancelable closable losable reconcilable
allowed_from created from = false
allowed_from risk_checked from = is_created from
allowed_from submitted from = is_risk_checked from
allowed_from accepted from = is_submitted from
allowed_from rejected from = is_submitted from
allowed_from partially_filled from = fillable from
allowed_from filled from = fillable from
allowed_from cancel_requested from = cancelable from
allowed_from canceled from = closable from
allowed_from expired from = closable from
allowed_from timeout from = losable from
allowed_from unknown from = losable from
allowed_from reconciled from = reconcilable from

unfoldable pub can_transition : OrderLifecycleState → OrderLifecycleState → Bool
unfolding is_terminal allowed_from
can_transition from to = if is_terminal from then false else allowed_from to from

unfoldable pub valid_quantities : OrderLifecycleRecord → Decimal64 → Decimal64 → Bool
valid_quantities record' cumulative_filled remaining =
    if not (cumulative_filled.scale == record'.request.quantity.scale)
      || not (remaining.scale == record'.request.quantity.scale)
      || ltb_ℤ cumulative_filled.units (pos 0)
      || ltb_ℤ remaining.units (pos 0)
    then false
    else if ltb_ℤ (int64_max -ℤ remaining.units) cumulative_filled.units
    then false
    else eqb_ℤ (cumulative_filled.units +ℤ remaining.units) record'.request.quantity.units

unfoldable pub append_audit :
    OrderLifecycleRecord → String → ℕ → ℕ → Option OrderLifecycleState → OrderLifecycleRecord
append_audit r event_key timestamp_ns sequence reconciled_state = record r {
  audit_history =
      r.audit_history
      ++ record {
        state = r.state;
        reconciled_state = reconciled_state;
        event_key = event_key;
        failure = r.failure;
        reason = r.reason;
        timestamp_ns = timestamp_ns;
        sequence = sequence;
      }
        ∷ [];
}

unfoldable pub record_event_key : String → List String → List String
unfolding insert
record_event_key event_key keys = if is_empty event_key then keys else insert event_key keys
