-- ===== src/Lifecycle/Events.antt =====
-- The methods of `OrderLifecycleStore` that apply a broker's reports (src/OrderLifecycleStore.cpp).
use Prim.Native.String.{String}
use trade_bot.Base.{ℕ, Bool, true, false, Option, none, some, ◌&&◌, ◌||◌, not, if◌then◌else◌}
use trade_bot.Base.Int.{pos, ltb_ℤ, eqb_ℤ}
use trade_bot.Base.Text.{is_empty}
use trade_bot.Broker.{
  Decimal64, OrderLifecycleState, accepted, partially_filled, filled, cancel_requested, canceled,
  expired, rejected, unknown, reconciled, FailureCategory, CancelDisposition, cancel_accepted,
  cancel_rejected, already_filled, already_canceled, cancel_unknown, OrderAcknowledgement,
  ExecutionEvent, CancelRequest, CancelResult,
}
use trade_bot.Lifecycle.{
  invalid_event, invalid_transition, OrderLifecycleRecord, OrderLifecycleStore, event_is_older,
  can_transition, is_cancel_requested, valid_quantities, append_audit,
}
use trade_bot.Lifecycle.Methods.{
  Outcome, is_zero, on_event, mark_risk_checked, mark_submitted, mark_timeout, mark_unknown,
}

abbrev pub acknowledged_state : OrderAcknowledgement → OrderLifecycleState
acknowledged_state ack = if ack.is_accepted then accepted else rejected

unfoldable pub apply_acknowledgement : OrderLifecycleStore → OrderAcknowledgement → Outcome
unfolding on_event event_is_older can_transition append_audit
apply_acknowledgement store ack =
    on_event store ack.local_order_id ack.event_key
      (λ r.
        if event_is_older r ack.timestamp_ns ack.sequence
        then some invalid_event
        else if ack.is_accepted && is_empty ack.external_order_id
        then some invalid_event
        else if not (can_transition r.state (acknowledged_state ack))
        then some invalid_transition
        else none)
      (λ r.
        append_audit
          (record r {
            state = acknowledged_state ack;
            external_order_id = ack.external_order_id;
            failure = ack.failure;
            reason = ack.reason;
            last_timestamp_ns = ack.timestamp_ns;
            last_sequence = ack.sequence;
          })
          ack.event_key ack.timestamp_ns ack.sequence none)

abbrev pub executed_state : ExecutionEvent → OrderLifecycleState
executed_state execution =
    if eqb_ℤ execution.remaining_quantity.units (pos 0) then filled else partially_filled

unfoldable pub apply_execution : OrderLifecycleStore → ExecutionEvent → Outcome
unfolding on_event event_is_older can_transition append_audit valid_quantities
apply_execution store execution =
    on_event store execution.local_order_id execution.event_key
      (λ r.
        if event_is_older r execution.timestamp_ns execution.sequence
          || not
              (valid_quantities r execution.cumulative_filled_quantity execution.remaining_quantity)
          || ltb_ℤ execution.cumulative_filled_quantity.units r.filled_quantity.units
        then some invalid_event
        else if not (can_transition r.state (executed_state execution))
        then some invalid_transition
        else none)
      (λ r.
        append_audit
          (record r {
            state = executed_state execution;
            external_order_id = execution.external_order_id;
            filled_quantity = execution.cumulative_filled_quantity;
            remaining_quantity = execution.remaining_quantity;
            last_timestamp_ns = execution.timestamp_ns;
            last_sequence = execution.sequence;
          })
          execution.event_key execution.timestamp_ns execution.sequence none)

unfoldable pub request_cancel : OrderLifecycleStore → CancelRequest → Outcome
unfolding on_event event_is_older can_transition append_audit
request_cancel store request =
    on_event store request.local_order_id request.idempotency_key
      (λ r.
        if event_is_older r request.timestamp_ns request.sequence
          || not (can_transition r.state cancel_requested)
        then some invalid_transition
        else none)
      (λ r.
        append_audit
          (record r {
            pre_cancel_state = r.state;
            state = cancel_requested;
            last_timestamp_ns = request.timestamp_ns;
            last_sequence = request.sequence;
          })
          request.idempotency_key request.timestamp_ns request.sequence none)

-- The `switch` on the disposition: the next state, or nothing where the method returns early.
unfoldable pub cancel_outcome :
    CancelDisposition → OrderLifecycleRecord → Option OrderLifecycleState
unfolding is_zero
cancel_outcome cancel_accepted r = some canceled
cancel_outcome already_canceled r = some canceled
cancel_outcome already_filled r = if is_zero r.remaining_quantity then some filled else none
cancel_outcome cancel_rejected r = some r.pre_cancel_state
cancel_outcome cancel_unknown r = some unknown

abbrev pub or_state : Option OrderLifecycleState → OrderLifecycleState → OrderLifecycleState
or_state none default = default
or_state (some s) default = s

unfoldable pub apply_cancel_result : OrderLifecycleStore → CancelResult → Outcome
unfolding on_event event_is_older is_cancel_requested append_audit cancel_outcome
apply_cancel_result store result =
    on_event store result.local_order_id result.event_key
      (λ r.
        if event_is_older r result.timestamp_ns result.sequence || not (is_cancel_requested r.state)
        then some invalid_transition
        else elim (cancel_outcome result.disposition r) [
          | none ↦ some invalid_event
          | some next ↦ none
        ])
      (λ r.
        append_audit
          (record r {
            state = or_state (cancel_outcome result.disposition r) unknown;
            failure = result.failure;
            reason = result.reason;
            last_timestamp_ns = result.timestamp_ns;
            last_sequence = result.sequence;
          })
          result.event_key result.timestamp_ns result.sequence none)

-- The states that a reconciliation may resolve to.
unfoldable pub resolvable : OrderLifecycleState → Bool
resolvable filled = true
resolvable partially_filled = true
resolvable canceled = true
resolvable expired = true
resolvable rejected = true
resolvable _ = false

unfoldable pub apply_reconciliation :
    OrderLifecycleStore → ℕ → OrderLifecycleState → Decimal64 → Decimal64 → String → ℕ → ℕ → Outcome
unfolding on_event event_is_older can_transition append_audit valid_quantities resolvable
apply_reconciliation store id resolved cumulative_filled remaining event_key timestamp_ns sequence =
    on_event store id event_key
      (λ r.
        if event_is_older r timestamp_ns sequence
          || not (valid_quantities r cumulative_filled remaining)
        then some invalid_event
        else if not (can_transition r.state reconciled)
        then some invalid_transition
        else if not (resolvable resolved)
        then some invalid_transition
        else none)
      (λ r.
        append_audit
          (record r {
            state = reconciled;
            reconciled_state = some resolved;
            filled_quantity = cumulative_filled;
            remaining_quantity = remaining;
            last_timestamp_ns = timestamp_ns;
            last_sequence = sequence;
          })
          event_key timestamp_ns sequence (some resolved))

-- A call of one of the event methods, with its arguments.
pub data Call : Type 0 where
  risk_check submission time_out : ℕ → String → ℕ → ℕ → Call
  loss : ℕ → String → FailureCategory → String → ℕ → ℕ → Call
  acknowledgement : OrderAcknowledgement → Call
  execution : ExecutionEvent → Call
  cancel_request : CancelRequest → Call
  cancel_result : CancelResult → Call
  reconciliation : ℕ → OrderLifecycleState → Decimal64 → Decimal64 → String → ℕ → ℕ → Call

unfoldable pub apply : Call → OrderLifecycleStore → Outcome
apply (risk_check id key ts seq) store = mark_risk_checked store id key ts seq
apply (submission id key ts seq) store = mark_submitted store id key ts seq
apply (time_out id key ts seq) store = mark_timeout store id key ts seq
apply (loss id key failure reason ts seq) store = mark_unknown store id key failure reason ts seq
apply (acknowledgement ack) store = apply_acknowledgement store ack
apply (execution e) store = apply_execution store e
apply (cancel_request r) store = request_cancel store r
apply (cancel_result r) store = apply_cancel_result store r
apply (reconciliation id resolved cumulative remaining key ts seq) store =
    apply_reconciliation store id resolved cumulative remaining key ts seq

-- The order and the event key that a call names.
abbrev pub order_of : Call → ℕ
order_of (risk_check id key ts seq) = id
order_of (submission id key ts seq) = id
order_of (time_out id key ts seq) = id
order_of (loss id key category text ts seq) = id
order_of (acknowledgement ack) = ack.local_order_id
order_of (execution e) = e.local_order_id
order_of (cancel_request r) = r.local_order_id
order_of (cancel_result r) = r.local_order_id
order_of (reconciliation id resolved cumulative rest key ts seq) = id

abbrev pub key_of : Call → String
key_of (risk_check id key ts seq) = key
key_of (submission id key ts seq) = key
key_of (time_out id key ts seq) = key
key_of (loss id key category text ts seq) = key
key_of (acknowledgement ack) = ack.event_key
key_of (execution e) = e.event_key
key_of (cancel_request r) = r.idempotency_key
key_of (cancel_result r) = r.event_key
key_of (reconciliation id resolved cumulative rest key ts seq) = key
