-- ===== src/Lifecycle/Tests.antt =====
-- The order lifecycle store at a concrete order.
use trade_bot.Base.{false, none, some, List, [], ◌∷◌, ◌≡◌, ◌⊎◌, refl, arith}
use trade_bot.Base.Int.{pos, ◌-ℤ◌, ◌+ℤ◌}
use trade_bot.Broker.{
  Decimal64, OrderRequest, buy, market, no_failure, risk_checked, submitted, filled, created,
}
use trade_bot.Lifecycle.{
  OrderLifecycleRecord, OrderLifecycleStore, empty_store, find, lookup, is_terminal, replace,
}
use trade_bot.Base.Text.{contains}
use trade_bot.Lifecycle.Methods.{create, mark_risk_checked, mark_submitted}
use trade_bot.Lifecycle.Events.{
  Call, risk_check, submission, execution, time_out, apply, apply_execution,
}
use trade_bot.Lifecycle.Frame.{Refused}
use trade_bot.Lifecycle.Idempotency.{Recorded, apply_atomic, apply_once, run, run-is_terminal}
use trade_bot.Lifecycle.History.{Step, place, call, history, IsAccounted, history-IsAccounted}
use trade_bot.Lifecycle.Progress.{Forward, apply-Forward}

-- A market order for five units.
abbrev five : Decimal64
five = record { units = pos 5; scale = 0 }

abbrev request : OrderRequest
request = record {
  schema_version = 1;
  local_order_id = 7;
  canonical_symbol = "XAUUSD";
  side = buy;
  type = market;
  quantity = five;
  limit_price = none;
  stop_price = none;
  reference_price = none;
  source_id = "";
  timestamp_ns = 10;
  sequence = 1;
  idempotency_key = "order-7";
}

abbrev check_event : Call
check_event = risk_check 7 "check-7" 11 2

abbrev submit_event : Call
submit_event = submission 7 "submit-7" 12 3

abbrev fill_event : Call
fill_event = execution (record {
  schema_version = 1;
  local_order_id = 7;
  external_order_id = "paper-7";
  cumulative_filled_quantity = five;
  remaining_quantity = record { units = pos 0; scale = 0 };
  fill_price = record { units = pos 2000; scale = 0 };
  fee = record { units = pos 1; scale = 0 };
  timestamp_ns = 13;
  sequence = 4;
  event_key = "fill-7-1";
})

abbrev placed : OrderLifecycleStore
unfolding create
placed = (create empty_store request).0

abbrev steps : List Step
steps = place request ∷ call check_event ∷ call submit_event ∷ call fill_event ∷ []

apply_atomic_example :
    Refused placed (apply check_event placed)
    ⊎ Recorded check_event placed (apply check_event placed)
apply_atomic_example = apply_atomic check_event placed

-- The record of a filled order, and a store that holds it.
abbrev filled_order : OrderLifecycleRecord
filled_order = record {
  request = request;
  state = filled;
  pre_cancel_state = created;
  external_order_id = "paper-7";
  filled_quantity = five;
  remaining_quantity = record { units = pos 0; scale = 0 };
  failure = no_failure;
  reason = "";
  last_timestamp_ns = 13;
  last_sequence = 4;
  reconciled_state = none;
  audit_history =
      record {
        state = created;
        reconciled_state = none;
        event_key = "order-7";
        failure = no_failure;
        reason = "";
        timestamp_ns = 10;
        sequence = 1;
      }
      ∷ record {
        state = risk_checked;
        reconciled_state = none;
        event_key = "check-7";
        failure = no_failure;
        reason = "";
        timestamp_ns = 11;
        sequence = 2;
      }
      ∷ record {
        state = submitted;
        reconciled_state = none;
        event_key = "submit-7";
        failure = no_failure;
        reason = "";
        timestamp_ns = 12;
        sequence = 3;
      }
      ∷ record {
        state = filled;
        reconciled_state = none;
        event_key = "fill-7-1";
        failure = no_failure;
        reason = "";
        timestamp_ns = 13;
        sequence = 4;
      }
      ∷ [];
}

abbrev ended : OrderLifecycleStore
ended = record { records = (7, filled_order) ∷ []; applied_event_keys = "fill-7-1" ∷ [] }

run-is_terminal_example :
    find (run (time_out 7 "late-7" 20 9 ∷ fill_event ∷ []) ended) 7 ≡ some filled_order
unfolding find lookup is_terminal
run-is_terminal_example =
    run-is_terminal (time_out 7 "late-7" 20 9 ∷ fill_event ∷ []) ended 7 filled_order refl refl

apply_once_example :
    let later = run (submit_event ∷ []) (apply check_event placed).0 in
    Refused later (apply (time_out 7 "check-7" 15 5) later)
unfolding placed apply mark_risk_checked lookup contains
apply_once_example =
    apply_once check_event (time_out 7 "check-7" 15 5) (submit_event ∷ []) placed refl refl

history-IsAccounted_example : IsAccounted 7 filled_order
unfolding history find lookup apply create contains mark_risk_checked mark_submitted apply_execution
    replace ◌-ℤ◌ ◌+ℤ◌
history-IsAccounted_example = history-IsAccounted steps 7 filled_order (omega arith) refl

apply-Forward_example :
    (s : OrderLifecycleRecord) × (find (apply (time_out 7 "late-7" 20 9) ended).0 7 ≡ some s)
    × Forward false filled_order s
unfolding find lookup
apply-Forward_example = apply-Forward (time_out 7 "late-7" 20 9) ended 7 filled_order refl
