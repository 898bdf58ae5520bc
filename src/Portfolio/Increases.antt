-- ===== src/Portfolio/Increases.antt =====
-- `addToLong` of src/PortfolioManager.cpp.
use Prim.Native.String.{String}
use trade_bot.Base.{Bool, Option, if◌then◌else◌, none, not, some, true, ◌&&◌, ◌+◌, ◌||◌}
use trade_bot.Base.Int.{ltb_ℤ}
use trade_bot.Base.Text.{is_empty}
use trade_bot.Float.{FloatingPoint}
use trade_bot.Financial.Units.{
  is_negative, is_positive, nearest_ties_away_from_zero, reject_unaligned,
}
use trade_bot.Financial.Values.{Money, Price, Quantity, add, average_price, fee, notional, subtract}
use trade_bot.Financial.Normalize.{money, price, quantity}
use trade_bot.Portfolio.{
  Portfolio, PositionState, Positions, Result, invalid_argument, logic_error, require_value,
  returns, throws, ◌>>=◌,
}
use trade_bot.Portfolio.Positions.{find_position, set_position}
use trade_bot.Portfolio.Marking.{commit_valuation, value_state}
use trade_bot.Portfolio.Trades.{
  nonnegative_value, open_long, or_throw, positive_value, require_counter_capacity,
}

-- The position with the added quantity; a strategy name that is empty keeps the old one.
unfoldable pub increased :
    PositionState → Price → Quantity → Money → Money → String → Result PositionState
unfolding add average_price
increased state at_price added_quantity added_cost added_fee strategy_id = do
  next_quantity ← require_value (add state.quantity added_quantity)
  next_cost ← require_value (add state.cost_basis added_cost)
  next_fee ← require_value (add state.entry_fee added_fee)
  next_average ← require_value (average_price next_cost next_quantity nearest_ties_away_from_zero)
  returns (record {
    quantity = next_quantity;
    average_entry_price = next_average;
    cost_basis = next_cost;
    last_mark_price = at_price;
    entry_timestamp = state.entry_timestamp;
    entry_fee = next_fee;
    strategy_id = if is_empty strategy_id then state.strategy_id else strategy_id;
  })

-- A debit that is negative, or beyond the capital to commit, is refused.
abbrev pub exceeds_budget : Money → Option Money → Bool
exceeds_budget debit none = true
exceeds_budget debit (some budget) = is_negative budget.units || ltb_ℤ budget.units debit.units

module _ (fp : FloatingPoint) where
  open fp use {Double, nought, lt, le, sum, product}

  -- The rest of `addToLong`, with the amounts normalized.
  unfoldable pub increase_position :
      Portfolio fp
      → String
      → PositionState
      → Price
      → Quantity
      → Money
      → Double
      → String
      → Result (Portfolio fp)
  unfolding notional add subtract set_position increased value_state commit_valuation
  increase_position p symbol state at_price added_quantity added_fee capital_to_commit strategy_id =
      do
        added_cost ← require_value (notional at_price added_quantity nearest_ties_away_from_zero)
        debit ← require_value (add added_cost added_fee)
        if not (is_positive added_cost.units)
            then throws logic_error
            else if ltb_ℤ p.cash.units debit.units
            then throws logic_error
            else if lt nought capital_to_commit
                && exceeds_budget debit (money fp capital_to_commit nearest_ties_away_from_zero)
            then throws logic_error
            else do
              next_state ← increased state at_price added_quantity added_cost added_fee strategy_id
              next_cash ← require_value (subtract p.cash debit)
              next_fees ← require_value (add p.total_fees_paid added_fee)
              let next_positions : Positions = set_position symbol next_state p.positions
              valuation ← value_state fp p next_cash next_positions
              require_counter_capacity p.trade_count (
                  returns (
                    commit_valuation fp valuation (record p {
                      cash = next_cash;
                      positions = next_positions;
                      total_fees_paid = next_fees;
                      trade_count = p.trade_count + 1;
                    })))

  -- With the position that is found: `openLong` without one, an increase with one.
  unfoldable pub add_to_found :
      Portfolio fp
      → String
      → Double
      → Double
      → Double
      → Double
      → String
      → Option PositionState
      → Result (Portfolio fp)
  unfolding open_long increase_position
  add_to_found p symbol net_price added fee capital_to_commit strategy_id none =
      open_long fp p symbol net_price 0 fee
        (if lt nought capital_to_commit
          then capital_to_commit
          else sum (product added net_price) fee)
        added strategy_id
  add_to_found p symbol net_price added fee capital_to_commit strategy_id (some state) =
      if le added nought || lt fee nought || lt capital_to_commit nought
      then throws invalid_argument
      else do
        at_price ←
            or_throw invalid_argument
              (positive_value (price fp net_price nearest_ties_away_from_zero))
        added_quantity ←
            or_throw invalid_argument (positive_value (quantity fp added reject_unaligned))
        added_fee ←
            or_throw invalid_argument (nonnegative_value (money fp fee nearest_ties_away_from_zero))
        increase_position p symbol state at_price added_quantity added_fee capital_to_commit
            strategy_id

  unfoldable pub add_to_long :
      Portfolio fp → String → Double → Double → Double → Double → String → Result (Portfolio fp)
  unfolding find_position add_to_found
  add_to_long p symbol net_price added fee capital_to_commit strategy_id =
      add_to_found p symbol net_price added fee capital_to_commit strategy_id
        (find_position symbol p.positions)
