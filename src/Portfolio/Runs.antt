-- ===== src/Portfolio/Runs.antt =====
-- Any sequence of calls of the methods of `PortfolioManager`. A call that throws leaves the fields
-- as they are.
use Prim.Native.String.{String}
use trade_bot.Portfolio.Exits.{realized}
use trade_bot.Base.{List, [], ℕ, ◌∷◌}
use trade_bot.Base.Int.{pos, ℤ, ◌+ℤ◌}
use trade_bot.Float.{FloatingPoint}
use trade_bot.Financial.Values.{fee}
use trade_bot.Portfolio.{OrderRecord, Portfolio, Result, returns, throws}
use trade_bot.Portfolio.Positions.{find_position}
use trade_bot.Portfolio.Trades.{open_long}
use trade_bot.Portfolio.Increases.{add_to_long}
use trade_bot.Portfolio.Closing.{close_position, update_pnl}
use trade_bot.Portfolio.Orders.{cancel_pending_order, evaluate_pending_orders, place_pending_order}

module _ (fp : FloatingPoint) where
  open fp use {Double}

  pub data Call : Type 0 where
    opens : String → Double → ℕ → Double → Double → Double → String → Call
    adds : String → Double → Double → Double → Double → String → Call
    closes : String → Double → ℕ → Double → String → Double → Call
    marks : String → Double → Call
    places : OrderRecord fp → Call
    cancels : ℕ → Call
    evaluates : String → Double → Double → Double → ℕ → Call

  unfoldable pub perform : Portfolio fp → Call → Result (Portfolio fp)
  unfolding open_long add_to_long close_position update_pnl place_pending_order cancel_pending_order
      evaluate_pending_orders
  perform p (opens symbol net_price timestamp fee capital_to_commit explicit_units name) =
      open_long fp p symbol net_price timestamp fee capital_to_commit explicit_units name
  perform p (adds symbol net_price added fee capital_to_commit name) =
      add_to_long fp p symbol net_price added fee capital_to_commit name
  perform p (closes symbol net_price timestamp fee name explicit_quantity) =
      close_position fp p symbol net_price timestamp fee name explicit_quantity
  perform p (marks symbol current_price) = update_pnl fp p symbol current_price
  perform p (places order) = returns (place_pending_order fp p order).0
  perform p (cancels id) = returns (cancel_pending_order fp p id).0
  perform p (evaluates symbol high low close timestamp) =
      returns (evaluate_pending_orders fp p symbol high low close timestamp).0

  -- The profit that a call realizes if it returns.
  unfoldable pub gain : Portfolio fp → Call → ℤ
  unfolding realized find_position
  gain p (closes symbol net_price timestamp fee name explicit_quantity) =
      realized fp (find_position symbol p.positions) net_price fee explicit_quantity
  gain p call = pos 0

  abbrev outcome : Portfolio fp → ℤ → Result (Portfolio fp) → Portfolio fp × ℤ
  outcome p profit (returns p') = (p', profit)
  outcome p profit (throws e) = (p, pos 0)

  -- The portfolio after the calls, and all profit that they realized.
  unfoldable pub run : Portfolio fp → List Call → Portfolio fp × ℤ
  unfolding perform gain
  run p [] = (p, pos 0)
  run p (call ∷ calls) =
      let (next, profit) = outcome p (gain p call) (perform p call) in
      let (last, profits) = run next calls in (last, profit +ℤ profits)
