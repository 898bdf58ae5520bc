-- ===== src/TriggerOrders/Tests.antt =====
-- Trigger orders at whole prices.
use trade_bot.Base.{[], arith, false, length, map, none, refl, true, ◌∷◌, ◌≡◌}
use trade_bot.Base.Int.{pos}
use trade_bot.Float.Whole.{whole}
use trade_bot.TriggerOrders.{
  BestQuote, Placement, TriggerOrderManager, cancel, find_order, is_refused, new_manager, next_id,
  oco, place_order, stop_loss,
}
use trade_bot.TriggerOrders.Slots.{IsConsistent, new_manager-IsConsistent}
use trade_bot.TriggerOrders.Runs.{cancels, place_order-IsConsistent, places, run, run-IsConsistent}
use trade_bot.TriggerOrders.Evaluation.{evaluate}
use trade_bot.TriggerOrders.Withdrawal.{cancel-place_order}
use trade_bot.TriggerOrders.Firing.{evaluate-fired, event_ids, fired}

abbrev stop : Placement whole
stop = record {
  symbol = "AAPL";
  order_type = stop_loss;
  is_buy = false;
  stop_price = pos 90;
  take_profit_price = pos 0;
  quantity = pos 5;
  strategy_id = "trend";
}

abbrev bracket : Placement whole
bracket = record stop { order_type = oco; stop_price = pos 80; take_profit_price = pos 120 }

run-IsConsistent_example : IsConsistent whole (
    run whole
      (new_manager whole 2)
      (places stop ∷ places bracket ∷ places stop ∷ cancels 1 ∷ places stop ∷ []))
run-IsConsistent_example =
    run-IsConsistent whole 2
      (places stop ∷ places bracket ∷ places stop ∷ cancels 1 ∷ places stop ∷ []) (omega arith)

abbrev one_placed : TriggerOrderManager whole
one_placed = (place_order whole (new_manager whole 2) stop).0

one_placed-IsConsistent : IsConsistent whole one_placed
one_placed-IsConsistent =
    place_order-IsConsistent whole (new_manager whole 2) stop
      (new_manager-IsConsistent whole 2 (omega arith))

one_left : one_placed.free_idx ≡ 1 ∷ []
unfolding place_order new_manager
one_left = refl

bracket_accepted : is_refused whole bracket ≡ false
bracket_accepted = refl

second_is_new : find_order whole 0 one_placed.next_order_id one_placed.slots ≡ none
unfolding place_order new_manager find_order
second_is_new = refl

cancel-place_order_example :
    cancel whole (place_order whole one_placed bracket).0 (place_order whole one_placed bracket).1
    ≡ (record one_placed { next_order_id = next_id one_placed.next_order_id }, true)
cancel-place_order_example =
    cancel-place_order whole one_placed bracket 1 [] one_placed-IsConsistent one_left
      bracket_accepted second_is_new

-- At a bid of 85 the stop triggers and the bracket does not.
abbrev quote : BestQuote whole
quote = record {
  valid = true;
  bid_price = pos 85;
  bid_size = pos 1;
  ask_price = pos 86;
  ask_size = pos 1;
}

one_triggered :
    map
      (λ event. event.order_id)
      (evaluate whole (place_order whole one_placed bracket).0 "AAPL" quote 9).0
    ≡ 1 ∷ []
unfolding evaluate place_order new_manager
one_triggered = refl

evaluate-fired_example :
    (event_ids whole (evaluate whole (place_order whole one_placed bracket).0 "AAPL" quote 9).0
      ≡ fired whole "AAPL" quote (place_order whole one_placed bracket).0.slots)
    × ((evaluate whole (place_order whole one_placed bracket).0 "AAPL" quote 9).1
        ≡ length (fired whole "AAPL" quote (place_order whole one_placed bracket).0.slots))
evaluate-fired_example =
    evaluate-fired whole (place_order whole one_placed bracket).0 "AAPL" quote 9
