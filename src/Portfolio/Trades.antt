-- ===== src/Portfolio/Trades.antt =====
-- `openLong` of src/PortfolioManager.cpp. A method returns the new portfolio or the exception; the
-- code writes to its fields only after the last statement that may throw.
use Prim.Native.String.{String}
use trade_bot.Base.{Option, if◌then◌else◌, none, not, some, ℕ, ◌+◌, ◌==◌, ◌||◌, ◌∷◌}
use trade_bot.Base.Int.{ltb_ℤ}
use trade_bot.Base.Text.{is_empty}
use trade_bot.Float.{FloatingPoint}
use trade_bot.Financial.Units.{
  is_negative, is_positive, nearest_ties_away_from_zero, reject_unaligned, toward_zero,
}
use trade_bot.Financial.Values.{
  Money, Price, Quantity, Tag, Value, add, average_price, fee, notional, quantity_for_notional,
  subtract,
}
use trade_bot.Financial.Normalize.{money, price, quantity}
use trade_bot.Portfolio.{
  Failure, Portfolio, Positions, Result, invalid_argument, logic_error, overflow_error,
  require_value, returns, throws, ◌>>=◌,
}
use trade_bot.Portfolio.Positions.{contains_position}
use trade_bot.Portfolio.Marking.{commit_valuation, value_state}

-- `std::numeric_limits<int>::max()`.
abbrev pub max_int : ℕ
max_int = 2147483647

abbrev pub require_counter_capacity {ℓ} : {A : Type ℓ} → ℕ → Result A → Result A
require_counter_capacity value rest = if value == max_int then throws overflow_error else rest

-- A price that is given and positive; a fee that is given and not negative.
abbrev pub positive_value : {t : Tag} → Option (Value t) → Option (Value t)
positive_value none = none
positive_value (some v) = if is_positive v.units then some v else none

abbrev pub nonnegative_value : {t : Tag} → Option (Value t) → Option (Value t)
nonnegative_value none = none
nonnegative_value (some v) = if is_negative v.units then none else some v

abbrev pub or_throw {ℓ} : {A : Type ℓ} → Failure → Option A → Result A
or_throw e none = throws e
or_throw e (some a) = returns a

-- The quantity bought, its cost and the debit.
pub record Sizing : Type 0 where
  pub quantity : Quantity
  pub cost_basis : Money
  pub debit : Money

unfoldable pub cost_of : Price → Money → Quantity → Result Sizing
unfolding notional add
cost_of at_price entry_fee q = do
  cost_basis ← require_value (notional at_price q nearest_ties_away_from_zero)
  debit ← require_value (add cost_basis entry_fee)
  returns (record { quantity = q; cost_basis = cost_basis; debit = debit })

-- Without an explicit quantity: what the budget affords after the fee.
unfoldable pub size_by_budget : Price → Money → Money → Result Sizing
unfolding subtract quantity_for_notional cost_of
size_by_budget at_price entry_fee budget = do
  notional_budget ← or_throw logic_error (positive_value (subtract budget entry_fee))
  affordable ←
      or_throw logic_error
        (positive_value (quantity_for_notional notional_budget at_price toward_zero))
  cost_of at_price entry_fee affordable

-- With an explicit quantity: it must fit the budget.
unfoldable pub size_explicitly : Price → Money → Money → Option Quantity → Result Sizing
unfolding cost_of
size_explicitly at_price entry_fee budget explicit = do
  q ← or_throw invalid_argument (positive_value explicit)
  sizing ← cost_of at_price entry_fee q
  if ltb_ℤ budget.units sizing.debit.units then throws logic_error else returns sizing

module _ (fp : FloatingPoint) where
  open fp use {Double, nought, lt}

  -- The debit budget: all cash, or the capital to commit.
  unfoldable pub budget_of : Money → Double → Result Money
  budget_of cash capital_to_commit =
      if lt nought capital_to_commit
      then (do
        budget ←
            or_throw invalid_argument
              (positive_value (money fp capital_to_commit nearest_ties_away_from_zero))
        if ltb_ℤ cash.units budget.units then throws invalid_argument else returns budget)
      else returns cash

  -- The state after the fill.
  unfoldable pub enter_position :
      Portfolio fp → String → Price → ℕ → Money → Sizing → String → Result (Portfolio fp)
  unfolding average_price subtract add value_state commit_valuation
  enter_position p symbol at_price timestamp entry_fee sizing strategy_id =
      if ltb_ℤ p.cash.units sizing.debit.units
      then throws logic_error
      else if not (is_positive sizing.cost_basis.units)
      then throws logic_error
      else do
        average_entry ←
            require_value
              (average_price sizing.cost_basis sizing.quantity nearest_ties_away_from_zero)
        next_cash ← require_value (subtract p.cash sizing.debit)
        next_fees ← require_value (add p.total_fees_paid entry_fee)
        let next_positions : Positions =
            (
              symbol,
              record {
                quantity = sizing.quantity;
                average_entry_price = average_entry;
                cost_basis = sizing.cost_basis;
                last_mark_price = at_price;
                entry_timestamp = timestamp;
                entry_fee = entry_fee;
                strategy_id = strategy_id;
              },
            )
            ∷ p.positions
        valuation ← value_state fp p next_cash next_positions
        require_counter_capacity p.trade_count (
            returns (
              commit_valuation fp valuation (record p {
                cash = next_cash;
                positions = next_positions;
                total_fees_paid = next_fees;
                trade_count = p.trade_count + 1;
              })))

  unfoldable pub open_long :
      Portfolio fp → String → Double → ℕ → Double → Double → Double → String → Result (Portfolio fp)
  unfolding contains_position budget_of size_explicitly size_by_budget enter_position
  open_long p symbol net_price timestamp fee capital_to_commit explicit_units strategy_id =
      if is_empty symbol
      then throws invalid_argument
      else if contains_position symbol p.positions
      then throws logic_error
      else if lt explicit_units nought || lt capital_to_commit nought || lt fee nought
      then throws invalid_argument
      else do
        at_price ←
            or_throw invalid_argument
              (positive_value (price fp net_price nearest_ties_away_from_zero))
        entry_fee ←
            or_throw invalid_argument (nonnegative_value (money fp fee nearest_ties_away_from_zero))
        budget ← budget_of p.cash capital_to_commit
        sizing ←
            if lt nought explicit_units
            then size_explicitly at_price entry_fee budget
                (quantity fp explicit_units reject_unaligned)
            else size_by_budget at_price entry_fee budget
        enter_position p symbol at_price timestamp entry_fee sizing strategy_id
