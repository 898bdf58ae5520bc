-- ===== src/Portfolio/Marking.antt =====
-- `valueState` and `commitValuation` of src/PortfolioManager.cpp.
use trade_bot.Base.{[], if◌then◌else◌, ◌∷◌}
use trade_bot.Base.Int.{ltb_ℤ, pos}
use trade_bot.Float.{FloatingPoint}
use trade_bot.Financial.Units.{is_positive, nearest_ties_away_from_zero}
use trade_bot.Financial.Values.{Money, add, notional, of_units, subtract}
use trade_bot.Financial.Normalize.{to_double}
use trade_bot.Portfolio.{Portfolio, Positions, Result, Valuation, require_value, returns, ◌>>=◌}

-- The two sums of the loop, the marked value and the unrealized profit.
unfoldable pub mark_positions : Positions → Money → Money → Result (Money × Money)
unfolding notional add subtract
mark_positions [] marked_value unrealized = returns (marked_value, unrealized)
mark_positions ((symbol, state) ∷ rest) marked_value unrealized = do
  marked ← require_value (notional state.last_mark_price state.quantity nearest_ties_away_from_zero)
  value ← require_value (add marked_value marked)
  position_pnl ← require_value (subtract marked state.cost_basis)
  profit ← require_value (add unrealized position_pnl)
  mark_positions rest value profit

module _ (fp : FloatingPoint) where
  open fp use {Double, nought, lt, difference, quotient}

  -- The larger of two, as `std::max` chooses it.
  abbrev pub larger : Double → Double → Double
  larger a b = if lt a b then b else a

  unfoldable pub drawdown_of : Money → Money → Double
  unfolding to_double
  drawdown_of max_equity equity =
      if is_positive max_equity.units
      then quotient (difference (to_double fp max_equity) (to_double fp equity))
          (to_double fp max_equity)
      else nought

  unfoldable pub value_state : Portfolio fp → Money → Positions → Result (Valuation fp)
  unfolding mark_positions drawdown_of add
  value_state p cash positions = do
    (marked_value, unrealized) ← mark_positions positions (of_units (pos 0)) (of_units (pos 0))
    equity ← require_value (add cash marked_value)
    let max_equity = if ltb_ℤ (p.max_equity.units) (equity.units) then equity else p.max_equity
    let drawdown = drawdown_of max_equity equity
    returns (record {
      unrealized_pnl = unrealized;
      total_equity = equity;
      max_equity = max_equity;
      current_drawdown = drawdown;
      max_drawdown = larger p.max_drawdown drawdown;
    })

  unfoldable pub commit_valuation : Valuation fp → Portfolio fp → Portfolio fp
  commit_valuation v p = record p {
    unrealized_pnl = v.unrealized_pnl;
    total_equity = v.total_equity;
    max_equity = v.max_equity;
    current_drawdown = v.current_drawdown;
    max_drawdown = v.max_drawdown;
  }
