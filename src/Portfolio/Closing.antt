-- ===== src/Portfolio/Closing.antt =====
-- `closePosition` and `updatePnL` of src/PortfolioManager.cpp.
use Prim.Native.String.{String}
use trade_bot.Base.{Option, [], if◌then◌else◌, none, some, ℕ, ◌++◌, ◌+◌, ◌||◌, ◌∷◌}
use trade_bot.Base.Int.{ltb_ℤ}
use trade_bot.Base.Text.{is_empty}
use trade_bot.Float.{FloatingPoint}
use trade_bot.Financial.Units.{is_zero, nearest_ties_away_from_zero, reject_unaligned}
use trade_bot.Financial.Values.{
  Money, Price, Quantity, add, average_price, fee, notional, proportional, subtract,
}
use trade_bot.Financial.Normalize.{money, price, quantity, to_double}
use trade_bot.Portfolio.{
  Portfolio, PositionState, Positions, Result, TradeRecord, invalid_argument, logic_error,
  require_value, returns, throws, ◌>>=◌,
}
use trade_bot.Portfolio.Positions.{erase_position, find_position, set_position}
use trade_bot.Portfolio.Marking.{commit_valuation, value_state}
use trade_bot.Portfolio.Trades.{
  nonnegative_value, or_throw, positive_value, require_counter_capacity,
}

-- The amounts of a sale.
pub record Sale : Type 0 where
  pub gross_proceeds : Money
  pub net_proceeds : Money
  pub allocated_cost : Money
  pub allocated_entry_fee : Money
  pub gross_pnl : Money
  pub realized_pnl : Money
  pub trade_fees : Money

unfoldable pub sale_of : PositionState → Price → Quantity → Money → Result Sale
unfolding notional subtract add proportional
sale_of prior at_price close_quantity exit_fee = do
  gross_proceeds ← require_value (notional at_price close_quantity nearest_ties_away_from_zero)
  net_proceeds ← or_throw logic_error (nonnegative_value (subtract gross_proceeds exit_fee))
  allocated_cost ←
      require_value
        (proportional prior.cost_basis close_quantity prior.quantity nearest_ties_away_from_zero)
  allocated_entry_fee ←
      require_value
        (proportional prior.entry_fee close_quantity prior.quantity nearest_ties_away_from_zero)
  gross_pnl ← require_value (subtract gross_proceeds allocated_cost)
  after_exit_fee ← require_value (subtract gross_pnl exit_fee)
  realized_pnl ← require_value (subtract after_exit_fee allocated_entry_fee)
  trade_fees ← require_value (add exit_fee allocated_entry_fee)
  returns (record {
    gross_proceeds = gross_proceeds;
    net_proceeds = net_proceeds;
    allocated_cost = allocated_cost;
    allocated_entry_fee = allocated_entry_fee;
    gross_pnl = gross_pnl;
    realized_pnl = realized_pnl;
    trade_fees = trade_fees;
  })

-- What is left of the position, nothing if all of it is sold.
unfoldable pub remainder_of :
    PositionState → Price → Quantity → Sale → Result (Option PositionState)
unfolding subtract average_price
remainder_of prior at_price close_quantity sale = do
  remaining ← require_value (subtract prior.quantity close_quantity)
  if is_zero remaining.units then returns none else do
    next_cost ← require_value (subtract prior.cost_basis sale.allocated_cost)
    next_fee ← require_value (subtract prior.entry_fee sale.allocated_entry_fee)
    next_average ← require_value (average_price next_cost remaining nearest_ties_away_from_zero)
    returns (
        some (record prior {
          quantity = remaining;
          cost_basis = next_cost;
          entry_fee = next_fee;
          average_entry_price = next_average;
          last_mark_price = at_price;
        }))

abbrev pub after_sale : String → Option PositionState → Positions → Positions
after_sale symbol none positions = erase_position symbol positions
after_sale symbol (some state) positions = set_position symbol state positions

-- The quantity to close: the whole position, or the explicit quantity within it.
unfoldable pub within : PositionState → Option Quantity → Result Quantity
within prior explicit = do
  q ← or_throw invalid_argument (positive_value explicit)
  if ltb_ℤ prior.quantity.units q.units then throws logic_error else returns q

-- The two counters that a sale may raise.
abbrev pub require_counters {ℓ} : {A : Type ℓ} → ℕ → Option PositionState → ℕ → Result A → Result A
require_counters trades none round_trips rest =
    require_counter_capacity trades (require_counter_capacity round_trips rest)
require_counters trades (some state) round_trips rest = require_counter_capacity trades rest

abbrev pub count_round_trip : Option PositionState → ℕ → ℕ
count_round_trip none round_trips = round_trips + 1
count_round_trip (some state) round_trips = round_trips

module _ (fp : FloatingPoint) where
  open fp use {Double, nought, lt}

  unfoldable pub trade_record :
      String → PositionState → Price → ℕ → Quantity → Sale → String → TradeRecord fp
  unfolding to_double
  trade_record symbol prior at_price timestamp close_quantity sale strategy_id = record {
    symbol = symbol;
    open_timestamp = prior.entry_timestamp;
    close_timestamp = timestamp;
    entry_price = to_double fp prior.average_entry_price;
    exit_price = to_double fp at_price;
    quantity = to_double fp close_quantity;
    total_fees = to_double fp sale.trade_fees;
    realized_pnl = to_double fp sale.realized_pnl;
    gross_pnl = to_double fp sale.gross_pnl;
    strategy_id = if is_empty strategy_id then prior.strategy_id else strategy_id;
  }

  -- The state after the sale.
  unfoldable pub leave_position :
      Portfolio fp
      → String
      → PositionState
      → Price
      → ℕ
      → Quantity
      → Money
      → Sale
      → String
      → Result (Portfolio fp)
  unfolding remainder_of add value_state commit_valuation trade_record erase_position set_position
  leave_position p symbol prior at_price timestamp close_quantity exit_fee sale strategy_id = do
    remainder ← remainder_of prior at_price close_quantity sale
    next_cash ← require_value (add p.cash sale.net_proceeds)
    next_fees ← require_value (add p.total_fees_paid exit_fee)
    let next_positions : Positions = after_sale symbol remainder p.positions
    valuation ← value_state fp p next_cash next_positions
    require_counters p.trade_count remainder p.round_trip_count (
        returns (
          commit_valuation fp valuation (record p {
            cash = next_cash;
            positions = next_positions;
            total_fees_paid = next_fees;
            trade_log =
                p.trade_log
                ++ (trade_record symbol prior at_price timestamp close_quantity sale strategy_id
                    ∷ []);
            trade_count = p.trade_count + 1;
            round_trip_count = count_round_trip remainder p.round_trip_count;
          })))

  -- The sale that a call makes, with its price, quantity and fee.
  unfoldable pub sale_terms :
      PositionState → Double → Double → Double → Result (Price × Quantity × Money × Sale)
  unfolding within sale_of
  sale_terms prior net_price fee explicit_quantity =
      if lt explicit_quantity nought || lt fee nought then throws invalid_argument else do
        at_price ←
            or_throw invalid_argument
              (positive_value (price fp net_price nearest_ties_away_from_zero))
        exit_fee ←
            or_throw invalid_argument (nonnegative_value (money fp fee nearest_ties_away_from_zero))
        close_quantity ←
            if lt nought explicit_quantity
            then within prior (quantity fp explicit_quantity reject_unaligned)
            else returns prior.quantity
        sale ← sale_of prior at_price close_quantity exit_fee
        returns (at_price, close_quantity, exit_fee, sale)

  unfoldable pub close_found :
      Portfolio fp
      → String
      → Double
      → ℕ
      → Double
      → String
      → Double
      → Option PositionState
      → Result (Portfolio fp)
  unfolding sale_terms leave_position
  close_found p symbol net_price timestamp fee strategy_id explicit_quantity none = returns p
  close_found p symbol net_price timestamp fee strategy_id explicit_quantity (some prior) = do
    (at_price, close_quantity, exit_fee, sale) ← sale_terms prior net_price fee explicit_quantity
    leave_position p symbol prior at_price timestamp close_quantity exit_fee sale strategy_id

  unfoldable pub close_position :
      Portfolio fp → String → Double → ℕ → Double → String → Double → Result (Portfolio fp)
  unfolding find_position close_found
  close_position p symbol net_price timestamp fee strategy_id explicit_quantity =
      close_found p symbol net_price timestamp fee strategy_id explicit_quantity
        (find_position symbol p.positions)

  unfoldable pub mark_found :
      Portfolio fp → String → Double → Option PositionState → Result (Portfolio fp)
  unfolding set_position value_state commit_valuation
  mark_found p symbol current_price none = returns p
  mark_found p symbol current_price (some state) = do
    mark ←
        or_throw invalid_argument
          (positive_value (price fp current_price nearest_ties_away_from_zero))
    let next_positions : Positions =
        set_position symbol (record state { last_mark_price = mark }) p.positions
    valuation ← value_state fp p p.cash next_positions
    returns (commit_valuation fp valuation (record p { positions = next_positions }))

  unfoldable pub update_pnl : Portfolio fp → String → Double → Result (Portfolio fp)
  unfolding find_position mark_found
  update_pnl p symbol current_price =
      mark_found p symbol current_price (find_position symbol p.positions)
