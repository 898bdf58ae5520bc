-- ===== src/Portfolio.antt =====
-- The data of include/PortfolioManager.hpp. The hash map of positions is an association list by
-- symbol, in the order in which the code walks through it.
pub mod Positions
pub mod Marking
pub mod Trades
pub mod Increases
pub mod Closing
pub mod Orders
pub mod Inversion
pub mod Invariant
pub mod Accounting
pub mod Buying
pub mod Adding
pub mod Selling
pub mod Leaving
pub mod Exits
pub mod Runs
pub mod Idle
pub mod Conservation
pub mod Queue
mod Tests
use Prim.Native.String.{String}
use trade_bot.Base.{ℕ, Bool, Option, none, some, List, [], ◌∷◌, if◌then◌else◌}
use trade_bot.Base.Int.{ℤ, pos}
use trade_bot.Base.Text.{str_eq}
use trade_bot.Float.{FloatingPoint}
use trade_bot.Financial.Values.{Price, Quantity, Money, of_units}

pub data OrderType : Type 0 where
  market limit stop_loss trailing_stop : OrderType

-- The exceptions, by their type.
pub data Failure : Type 0 where
  invalid_argument logic_error overflow_error : Failure

pub data Result {ℓ} (A : Type ℓ) : Type ℓ where
  returns : A → Result A
  throws : Failure → Result A

infixl 5 ◌>>=◌
abbrev pub ◌>>=◌ {ℓ κ} : {A : Type ℓ} {B : Type κ} → Result A → (A → Result B) → Result B
returns a >>= f = f a
throws e >>= f = throws e

-- `requireValue`.
abbrev pub require_value {ℓ} : {A : Type ℓ} → Option A → Result A
require_value none = throws overflow_error
require_value (some a) = returns a

pub record PositionState : Type 0 where
  pub quantity : Quantity
  pub average_entry_price : Price
  pub cost_basis : Money
  pub last_mark_price : Price
  pub entry_timestamp : ℕ
  pub entry_fee : Money
  pub strategy_id : String

abbrev pub Positions : Type 0
Positions = List (String × PositionState)

module _ (fp : FloatingPoint) where
  open fp use {Double, nought}

  pub record OrderRecord : Type 0 where
    pub symbol : String
    pub order_type : OrderType
    pub is_buy : Bool
    pub limit_price : Double
    pub trail_offset : Double
    pub trail_best : Double
    pub quantity : Double
    pub capital_to_commit : Double
    pub placed_timestamp : ℕ
    pub order_id : ℕ

  pub record OrderFillResult : Type 0 where
    pub order_id : ℕ
    pub filled : Bool
    pub symbol : String
    pub order_type : OrderType
    pub is_buy : Bool
    pub fill_price : Double
    pub quantity : Double
    pub capital_to_commit : Double
    pub fill_timestamp : ℕ

  pub record TradeRecord : Type 0 where
    pub symbol : String
    pub open_timestamp : ℕ
    pub close_timestamp : ℕ
    pub entry_price : Double
    pub exit_price : Double
    pub quantity : Double
    pub total_fees : Double
    pub realized_pnl : Double
    pub gross_pnl : Double
    pub strategy_id : String

  pub record Valuation : Type 0 where
    pub unrealized_pnl : Money
    pub total_equity : Money
    pub max_equity : Money
    pub current_drawdown : Double
    pub max_drawdown : Double

  pub record Portfolio : Type 0 where
    pub cash : Money
    pub positions : Positions
    pub unrealized_pnl : Money
    pub total_equity : Money
    pub max_equity : Money
    pub current_drawdown : Double
    pub max_drawdown : Double
    pub trade_count : ℕ
    pub total_fees_paid : Money
    pub trade_log : List TradeRecord
    pub round_trip_count : ℕ
    pub pending_orders : List OrderRecord
    pub next_order_id : ℕ

  -- 100,000 dollars.
  abbrev pub starting_cash : Money
  starting_cash = of_units (pos 10_000_000_000_000)

  abbrev pub new_portfolio : Portfolio
  new_portfolio = record {
    cash = starting_cash;
    positions = [];
    unrealized_pnl = of_units (pos 0);
    total_equity = starting_cash;
    max_equity = starting_cash;
    current_drawdown = nought;
    max_drawdown = nought;
    trade_count = 0;
    total_fees_paid = of_units (pos 0);
    trade_log = [];
    round_trip_count = 0;
    pending_orders = [];
    next_order_id = 1;
  }
