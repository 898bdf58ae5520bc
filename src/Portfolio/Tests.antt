-- ===== src/Portfolio/Tests.antt =====
-- The methods of `PortfolioManager` on concrete calls, with whole numbers for `double`.
use mathlib.Core.List.{Perm}
use trade_bot.Portfolio.Runs.{Call, adds, closes, gain, marks, opens, perform, run}
use trade_bot.Base.{List, [], arith, false, not, refl, true, ◌++◌, ◌==◌, ◌∷◌, ◌≡◌}
use trade_bot.Base.Int.{pos, ℤ, ◌+ℤ◌, ◌-ℤ◌, ◌≤ℤ◌}
use trade_bot.Portfolio.{
  OrderRecord, Portfolio, PositionState, Positions, Valuation, limit, new_portfolio, returns,
  starting_cash, stop_loss,
}
use trade_bot.Portfolio.Conservation.{run-Balanced}
use trade_bot.Portfolio.Queue.{
  AllNumbered, cancel_pending_order-place_pending_order, evaluate_orders-Perm, fill_ids, order_ids,
  withdrawn,
}
use trade_bot.Portfolio.Selling.{IsSold, sale_of-IsSold}
use trade_bot.Financial.Values.{of_units}
use trade_bot.Financial.Normalize.{normalized}
use trade_bot.Portfolio.Marking.{value_state}
use trade_bot.Portfolio.Closing.{Sale, sale_of}
use trade_bot.Portfolio.Orders.{evaluate_orders, place_pending_order}
use trade_bot.Portfolio.Invariant.{AllHeld, IsHeld, total_cost, total_marked}
use trade_bot.Portfolio.Accounting.{IsSound, holdings, value_state-exact}
use trade_bot.Financial.Units.{
  checked_add, checked_subtract, magnitude, proportional_units, round_magnitude, scaled_product,
  scaled_ratio, signed_quotient, with_sign,
}
use trade_bot.Financial.Wide.{divide_wide, multiply_wide}
use trade_bot.Float.Whole.{whole, whole-CastsInRange}

-- Ten shares at 100 for a fee of 1, five more at 110, eight sold at 130, and a marked rest.
abbrev day : List (Call whole)
day =
    opens "AAPL" (pos 100) 1 (pos 1) (pos 0) (pos 10) "trend"
    ∷ adds "AAPL" (pos 110) (pos 5) (pos 1) (pos 0) "trend"
    ∷ closes "AAPL" (pos 130) 2 (pos 2) "trend" (pos 8)
    ∷ marks "AAPL" (pos 125)
    ∷ closes "AAPL" (pos 120) 3 (pos 2) "trend" (pos 0)
    ∷ []

abbrev after_day : Portfolio whole × ℤ
after_day = run whole (new_portfolio whole) day

-- The day's profit is 324, all of it in cash at the end.
day_profit : (after_day.1 ≡ pos 32_400_000_000) × (after_day.0.cash.units ≡ pos 10_032_400_000_000)
unfolding run perform gain normalized scaled_ratio proportional_units scaled_product signed_quotient
    divide_wide multiply_wide magnitude round_magnitude with_sign checked_add checked_subtract ◌+ℤ◌
    ◌-ℤ◌
day_profit = (refl, refl)

run-Balanced_example :
    (holdings whole after_day.0 ≡ (starting_cash whole).units +ℤ after_day.1)
    × IsSound whole after_day.0
run-Balanced_example = run-Balanced whole whole-CastsInRange day

abbrev share_position : PositionState
share_position = record {
  quantity = of_units (pos 300_000_000);
  average_entry_price = of_units (pos 10_000_000_000);
  cost_basis = of_units (pos 30_000_000_000);
  last_mark_price = of_units (pos 12_500_000_000);
  entry_timestamp = 1;
  entry_fee = of_units (pos 100_000_000);
  strategy_id = "trend";
}

share_position-IsHeld : IsHeld share_position
share_position-IsHeld = record {
  quantity_fits = (omega arith, omega arith);
  quantity_pos = omega arith;
  cost_fits = (omega arith, omega arith);
  cost_nonneg = omega arith;
  fee_fits = (omega arith, omega arith);
  fee_nonneg = omega arith;
  mark_fits = (omega arith, omega arith);
  mark_pos = omega arith;
}

abbrev two_positions : Positions
two_positions = ("AAPL", share_position) ∷ ("MSFT", share_position) ∷ []

two_positions-AllHeld : AllHeld two_positions
unfolding AllHeld
two_positions-AllHeld = (share_position-IsHeld, (share_position-IsHeld, omega arith))

abbrev two_valued : Valuation whole
two_valued = record {
  unrealized_pnl = of_units (pos 15_000_000_000);
  total_equity = of_units (pos 75_000_000_100);
  max_equity = of_units (pos 10_000_000_000_000);
  current_drawdown = pos 0;
  max_drawdown = pos 0;
}

value_computed :
    value_state whole (new_portfolio whole) (of_units (pos 100)) two_positions ≡ returns two_valued
unfolding value_state scaled_product signed_quotient divide_wide multiply_wide magnitude
    round_magnitude with_sign checked_add checked_subtract ◌+ℤ◌ ◌-ℤ◌
value_computed = refl

value_state-exact_example :
    (pos 15_000_000_000 ≡ total_marked two_positions -ℤ total_cost two_positions)
    × (pos 75_000_000_100 ≡ pos 100 +ℤ total_marked two_positions)
    × (pos 75_000_000_100 ≤ℤ pos 10_000_000_000_000)
value_state-exact_example =
    value_state-exact whole (new_portfolio whole) (of_units (pos 100)) two_positions two_valued
      two_positions-AllHeld (omega arith, omega arith) value_computed

abbrev two_sold : Sale
two_sold = record {
  gross_proceeds = of_units (pos 26_000_000_000);
  net_proceeds = of_units (pos 25_900_000_000);
  allocated_cost = of_units (pos 20_000_000_000);
  allocated_entry_fee = of_units (pos 66_666_667);
  gross_pnl = of_units (pos 6_000_000_000);
  realized_pnl = of_units (pos 5_833_333_333);
  trade_fees = of_units (pos 166_666_667);
}

sale_computed :
    sale_of share_position
      (of_units (pos 13_000_000_000))
      (of_units (pos 200_000_000))
      (of_units (pos 100_000_000))
    ≡ returns two_sold
unfolding sale_of proportional_units scaled_product signed_quotient divide_wide multiply_wide
    magnitude round_magnitude with_sign checked_add checked_subtract ◌+ℤ◌ ◌-ℤ◌
sale_computed = refl

sale_of-IsSold_example : IsSold share_position (of_units (pos 100_000_000)) two_sold
sale_of-IsSold_example =
    sale_of-IsSold share_position (of_units (pos 13_000_000_000)) (of_units (pos 200_000_000))
      (of_units (pos 100_000_000)) two_sold share_position-IsHeld (omega arith, omega arith)
      (omega arith) (omega arith) sale_computed

abbrev bid : OrderRecord whole
bid = record {
  symbol = "AAPL";
  order_type = limit;
  is_buy = true;
  limit_price = pos 100;
  trail_offset = pos 0;
  trail_best = pos 0;
  quantity = pos 5;
  capital_to_commit = pos 500;
  placed_timestamp = 7;
  order_id = 1;
}

abbrev stop : OrderRecord whole
stop = record bid { order_type = stop_loss; is_buy = false; limit_price = pos 90; order_id = 2 }

abbrev queueing : Portfolio whole
queueing = record (new_portfolio whole) { pending_orders = bid ∷ stop ∷ []; next_order_id = 3 }

queueing-AllNumbered : AllNumbered whole 3 (bid ∷ stop ∷ [])
unfolding AllNumbered
queueing-AllNumbered = (omega arith, omega arith, (omega arith, omega arith, omega arith))

cancel_pending_order-place_pending_order_example :
    ((withdrawn whole queueing bid).0.pending_orders ≡ bid ∷ stop ∷ [])
    × ((withdrawn whole queueing bid).1 ≡ not ((place_pending_order whole queueing bid).1 == 0))
cancel_pending_order-place_pending_order_example =
    cancel_pending_order-place_pending_order whole queueing bid queueing-AllNumbered

-- A candle from 105 down to 95 fills the bid and keeps the stop.
evaluate_orders-Perm_example :
    Perm
      (fill_ids whole
          (evaluate_orders whole "AAPL" (pos 105) (pos 95) (pos 98) 8 (bid ∷ stop ∷ [])).0
        ++ order_ids whole
            (evaluate_orders whole "AAPL" (pos 105) (pos 95) (pos 98) 8 (bid ∷ stop ∷ [])).1)
      (1 ∷ 2 ∷ [])
evaluate_orders-Perm_example =
    evaluate_orders-Perm whole "AAPL" (pos 105) (pos 95) (pos 98) 8 (bid ∷ stop ∷ [])
