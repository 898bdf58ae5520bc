-- ===== src/Lifecycle/Methods.antt =====
-- The public methods of `OrderLifecycleStore` (src/OrderLifecycleStore.cpp).
use Prim.Native.String.{String}
use trade_bot.Base.{
  ℕ, Bool, true, false, Option, none, some, List, [], ◌∷◌, ◌||◌, not, ltb, ◌==◌, if◌then◌else◌,
}
use trade_bot.Base.Int.{pos, ltb_ℤ, eqb_ℤ}
use trade_bot.Base.Text.{is_empty, contains, insert}
use trade_bot.Broker.{
  Decimal64, max_scale, OrderLifecycleState, created, risk_checked, submitted, timeout, unknown,
  FailureCategory, no_failure, OrderRequest,
}
use trade_bot.Lifecycle.{
  LifecycleApplyResult, applied, duplicate, unknown_order, invalid_event, invalid_transition,
  LifecycleAuditEntry, OrderLifecycleRecord, OrderLifecycleStore, replace, find, event_is_older,
  can_transition, append_audit, record_event_key,
}

abbrev pub Outcome : Type 0
Outcome = OrderLifecycleStore × LifecycleApplyResult

unfoldable pub is_positive : Decimal64 → Bool
is_positive d = ltb_ℤ (pos 0) d.units

unfoldable pub is_zero : Decimal64 → Bool
is_zero d = eqb_ℤ d.units (pos 0)

-- The record with which `create` begins.
unfoldable pub new_record : OrderRequest → OrderLifecycleRecord
unfolding append_audit
new_record request =
    append_audit
      (record {
        request = request;
        state = created;
        pre_cancel_state = created;
        external_order_id = "";
        filled_quantity = record { units = pos 0; scale = request.quantity.scale };
        remaining_quantity = request.quantity;
        failure = no_failure;
        reason = "";
        last_timestamp_ns = request.timestamp_ns;
        last_sequence = request.sequence;
        reconciled_state = none;
        audit_history = [];
      })
      request.idempotency_key request.timestamp_ns request.sequence none

abbrev pub is_some {ℓ} : {A : Type ℓ} → Option A → Bool
is_some none = false
is_some (some a) = true

unfoldable pub create : OrderLifecycleStore → OrderRequest → OrderLifecycleStore × Bool
unfolding is_positive new_record find insert
create store request =
    if (request.local_order_id == 0)
      || is_empty request.canonical_symbol
      || not (is_positive request.quantity)
      || is_empty request.idempotency_key
      || ltb max_scale request.quantity.scale
    then (store, false)
    else if is_some (find store request.local_order_id)
        || contains request.idempotency_key store.applied_event_keys
    then (store, false)
    else (
      record {
        records = (request.local_order_id, new_record request) ∷ store.records;
        applied_event_keys = insert request.idempotency_key store.applied_event_keys;
      },
      true,
    )

-- The frame that every event method shares: the order is looked up, an empty key and a repeated key
-- are turned away, then come the method's own early returns (`refusal`), and at the end the key and
-- the changed record are stored.
unfoldable pub on_event :
    OrderLifecycleStore
    → ℕ
    → String
    → (OrderLifecycleRecord → Option LifecycleApplyResult)
    → (OrderLifecycleRecord → OrderLifecycleRecord)
    → Outcome
unfolding find record_event_key
on_event store id event_key refusal change = elim (find store id) [
  | none ↦ (store, unknown_order)
  | some r ↦
      if is_empty event_key
      then (store, invalid_event)
      else if contains event_key store.applied_event_keys
      then (store, duplicate)
      else elim (refusal r) [
        | some result ↦ (store, result)
        | none ↦ (
          record {
            records = replace id (change r) store.records;
            applied_event_keys = record_event_key event_key store.applied_event_keys;
          },
          applied,
        )
      ]
]

unfoldable pub transition : OrderLifecycleStore → ℕ → OrderLifecycleState → String → ℕ → ℕ → Outcome
unfolding on_event event_is_older can_transition append_audit
transition store id next event_key timestamp_ns sequence =
    on_event store id event_key
      (λ r.
        if event_is_older r timestamp_ns sequence
        then some invalid_event
        else if not (can_transition r.state next)
        then some invalid_transition
        else none)
      (λ r.
        append_audit
          (record r { state = next; last_timestamp_ns = timestamp_ns; last_sequence = sequence })
          event_key timestamp_ns sequence none)

unfoldable pub mark_risk_checked : OrderLifecycleStore → ℕ → String → ℕ → ℕ → Outcome
unfolding transition
mark_risk_checked store id event_key timestamp_ns sequence =
    transition store id risk_checked event_key timestamp_ns sequence

unfoldable pub mark_submitted : OrderLifecycleStore → ℕ → String → ℕ → ℕ → Outcome
unfolding transition
mark_submitted store id event_key timestamp_ns sequence =
    transition store id submitted event_key timestamp_ns sequence

unfoldable pub mark_timeout : OrderLifecycleStore → ℕ → String → ℕ → ℕ → Outcome
unfolding transition
mark_timeout store id event_key timestamp_ns sequence =
    transition store id timeout event_key timestamp_ns sequence

-- `auditHistory.back()` is given the failure and the reason.
unfoldable pub annotate_last :
    FailureCategory → String → List LifecycleAuditEntry → List LifecycleAuditEntry
annotate_last category text [] = []
annotate_last category text (e ∷ []) = record e { failure = category; reason = text } ∷ []
annotate_last category text (e ∷ f ∷ rest) = e ∷ annotate_last category text (f ∷ rest)

unfoldable pub annotate : FailureCategory → String → OrderLifecycleRecord → OrderLifecycleRecord
unfolding annotate_last
annotate category text r = record r {
  failure = category;
  reason = text;
  audit_history = annotate_last category text r.audit_history;
}

-- `m_records.at` finds the record that the transition has just written.
unfoldable pub annotate_applied : ℕ → FailureCategory → String → Outcome → Outcome
unfolding find annotate
annotate_applied id category text (store, applied) = elim (find store id) [
  | none ↦ (store, applied)
  | some r ↦
      (record store { records = replace id (annotate category text r) store.records }, applied)
]
annotate_applied id category text (store, result) = (store, result)

unfoldable pub mark_unknown :
    OrderLifecycleStore → ℕ → String → FailureCategory → String → ℕ → ℕ → Outcome
unfolding transition annotate_applied
mark_unknown store id event_key category text timestamp_ns sequence =
    annotate_applied id category text (transition store id unknown event_key timestamp_ns sequence)
