-- ===== src/TriggerOrders/Evaluation.antt =====
-- `TriggerOrderManager::evaluate`, which changes no order.
use Prim.Native.String.{String}
use trade_bot.Base.{List, [], if◌then◌else◌, length, not, ℕ, ◌++◌, ◌||◌, ◌∷◌}
use trade_bot.Base.Text.{str_eq}
use trade_bot.Float.{FloatingPoint}
use trade_bot.TriggerOrders.{
  BestQuote, OrderSlot, TriggerFillEvent, TriggerOrderManager, TriggerReason, no_reason, oco,
  stop_loss, stop_trigger, take_profit,
}

module _ (fp : FloatingPoint) where
  open fp use {Double, nought, le}

  -- The reason and the trigger price.
  unfoldable pub reason_of : OrderSlot fp → BestQuote fp → TriggerReason × Double
  reason_of slot bbo = elim (slot.order_type) [
    | stop_loss ↦
        if not slot.is_buy
        then (if le bbo.bid_price slot.stop_price
            then (stop_trigger, slot.stop_price)
            else (no_reason, nought))
        else if le slot.stop_price bbo.ask_price
        then (stop_trigger, slot.stop_price)
        else (no_reason, nought)
    | oco ↦
        if not slot.is_buy
        then (if le bbo.bid_price slot.stop_price
            then (stop_trigger, slot.stop_price)
            else if le slot.take_profit_price bbo.ask_price
            then (take_profit, slot.take_profit_price)
            else (no_reason, nought))
        else if le slot.stop_price bbo.ask_price
        then (stop_trigger, slot.stop_price)
        else if le bbo.bid_price slot.take_profit_price
        then (take_profit, slot.take_profit_price)
        else (no_reason, nought)
  ]

  abbrev pub event_of :
      OrderSlot fp → BestQuote fp → ℕ → TriggerReason → Double → TriggerFillEvent fp
  event_of slot bbo timestamp reason trigger_price = record {
    order_id = slot.order_id;
    symbol = slot.symbol;
    order_type = slot.order_type;
    trigger_reason = reason;
    is_buy = slot.is_buy;
    trigger_price = trigger_price;
    execution_price = if slot.is_buy then bbo.ask_price else bbo.bid_price;
    quantity = slot.quantity;
    timestamp = timestamp;
    strategy_id = slot.strategy_id;
  }

  abbrev pub events_of :
      OrderSlot fp → BestQuote fp → ℕ → TriggerReason × Double → List (TriggerFillEvent fp)
  events_of slot bbo timestamp (no_reason, price) = []
  events_of slot bbo timestamp (stop_trigger, price) =
      event_of slot bbo timestamp stop_trigger price ∷ []
  events_of slot bbo timestamp (take_profit, price) =
      event_of slot bbo timestamp take_profit price ∷ []

  unfoldable pub evaluate_slots :
      String → BestQuote fp → ℕ → List (OrderSlot fp) → List (TriggerFillEvent fp)
  unfolding reason_of
  evaluate_slots symbol bbo timestamp [] = []
  evaluate_slots symbol bbo timestamp (slot ∷ slots) =
      let rest = evaluate_slots symbol bbo timestamp slots in
      if not slot.in_use || not (str_eq slot.symbol symbol)
      then rest
      else events_of slot bbo timestamp (reason_of slot bbo) ++ rest

  -- The events that are appended; their number is returned.
  unfoldable pub evaluate :
      TriggerOrderManager fp → String → BestQuote fp → ℕ → List (TriggerFillEvent fp) × ℕ
  unfolding evaluate_slots
  evaluate m symbol bbo timestamp =
      let events = evaluate_slots symbol bbo timestamp m.slots in
      if not bbo.valid then ([], 0) else (events, length events)
