-- ===== src/Portfolio/Orders.antt =====
-- The queue of pending orders of src/PortfolioManager.cpp.
use Prim.Native.String.{String}
use trade_bot.Base.{
  Bool, List, Option, [], false, if◌then◌else◌, none, not, some, true, ℕ, ◌&&◌, ◌++◌, ◌+◌, ◌==◌,
  ◌||◌, ◌∷◌,
}
use trade_bot.Base.Text.{is_empty, str_eq}
use trade_bot.Float.{FloatingPoint}
use trade_bot.Financial.Units.{nearest_ties_away_from_zero, toward_zero}
use trade_bot.Financial.Values.{Money, Price, Quantity}
use trade_bot.Financial.Normalize.{money, price, quantity, to_double}
use trade_bot.Portfolio.{
  OrderFillResult, OrderRecord, OrderType, Portfolio, limit, market, stop_loss, trailing_stop,
}
use trade_bot.Portfolio.Trades.{positive_value}

-- `std::numeric_limits<uint64_t>::max()`.
abbrev pub max_order_id : ℕ
max_order_id = 18446744073709551615

module _ (fp : FloatingPoint) where
  open fp use {Double, nought, lt, le, difference}

  -- The five numbers of an order, normalized.
  pub record OrderAmounts : Type 0 where
    pub quantity : Double
    pub capital_to_commit : Double
    pub limit_price : Double
    pub trail_offset : Double
    pub trail_best : Double

  abbrev all_amounts :
      Option Quantity
      → Option Money
      → Option Price
      → Option Price
      → Option Price
      → Option OrderAmounts
  all_amounts (some q) (some c) (some l) (some o) (some b) = some (record {
    quantity = to_double fp q;
    capital_to_commit = to_double fp c;
    limit_price = to_double fp l;
    trail_offset = to_double fp o;
    trail_best = to_double fp b;
  })
  all_amounts q c l o b = none

  unfoldable pub amounts_of : OrderRecord fp → Option OrderAmounts
  unfolding to_double
  amounts_of order =
      all_amounts (quantity fp order.quantity toward_zero)
        (money fp order.capital_to_commit nearest_ties_away_from_zero)
        (price fp order.limit_price nearest_ties_away_from_zero)
        (price fp order.trail_offset nearest_ties_away_from_zero)
        (price fp order.trail_best nearest_ties_away_from_zero)

  abbrev pub is_trailing : OrderType → Bool
  is_trailing trailing_stop = true
  is_trailing type = false

  -- The order that is queued.
  unfoldable pub queued_order : OrderRecord fp → OrderAmounts → ℕ → OrderRecord fp
  queued_order order amounts id = record order {
    quantity = amounts.quantity;
    capital_to_commit = amounts.capital_to_commit;
    limit_price = amounts.limit_price;
    trail_offset = amounts.trail_offset;
    trail_best = if is_trailing order.order_type then amounts.limit_price else amounts.trail_best;
    order_id = id;
  }

  -- 0 stands for a refusal.
  unfoldable pub place_pending_order : Portfolio fp → OrderRecord fp → Portfolio fp × ℕ
  unfolding amounts_of queued_order
  place_pending_order p order =
      if is_empty order.symbol
        || lt order.quantity nought
        || lt order.capital_to_commit nought
        || lt order.limit_price nought
        || lt order.trail_offset nought
        || (p.next_order_id == max_order_id)
      then (p, 0)
      else elim (amounts_of order) [
        | none ↦ (p, 0)
        | some amounts ↦ (
          record p {
            pending_orders = p.pending_orders ++ (queued_order order amounts p.next_order_id ∷ []);
            next_order_id = p.next_order_id + 1;
          },
          p.next_order_id,
        )
      ]

  -- The queue without the first order of that identity, if there is one.
  unfoldable pub remove_order : ℕ → List (OrderRecord fp) → Option (List (OrderRecord fp))
  remove_order id [] = none
  remove_order id (order ∷ orders) =
      if order.order_id == id
      then some orders
      else elim (remove_order id orders) [ none ↦ none | some rest ↦ some (order ∷ rest) ]

  unfoldable pub cancel_pending_order : Portfolio fp → ℕ → Portfolio fp × Bool
  unfolding remove_order
  cancel_pending_order p id = elim (remove_order id p.pending_orders) [
    | none ↦ (p, false)
    | some rest ↦ (record p { pending_orders = rest }, true)
  ]

  -- The smaller of two, as `std::min` chooses it.
  abbrev pub smaller : Double → Double → Double
  smaller a b = if lt b a then b else a

  -- A trailing stop follows a close above the best price.
  unfoldable pub trail : OrderRecord fp → Double → OrderRecord fp
  unfolding to_double
  trail order close =
      if lt order.trail_best close
      then elim (positive_value (price fp close nearest_ties_away_from_zero)) [
        | none ↦ order
        | some best ↦
            elim (positive_value (
              price fp (difference (to_double fp best) order.trail_offset)
                nearest_ties_away_from_zero)) [
                  | none ↦ order
                  | some stop ↦ record order {
                    trail_best = to_double fp best;
                    limit_price = to_double fp stop;
                  }
                ]
      ]
      else order

  abbrev pub trigger : Bool → Double → Option Double
  trigger triggered fill_price = if triggered then some fill_price else none

  -- The order after the candle and, if it triggers, its fill price.
  unfoldable pub examine :
      OrderRecord fp → Double → Double → Double → OrderRecord fp × Option Double
  unfolding trail
  examine order high low close = elim (order.order_type) [
    | limit ↦ (
      order,
      trigger
          ((order.is_buy && le low order.limit_price)
            || (not order.is_buy && le order.limit_price high))
          order.limit_price,
    )
    | stop_loss ↦ (order, trigger (le low order.limit_price) (smaller order.limit_price low))
    | trailing_stop ↦
        let trailed : OrderRecord fp = trail order close in
        (trailed, trigger (le low trailed.limit_price) (smaller trailed.limit_price low))
    | market ↦ (order, some close)
  ]

  unfoldable pub fill_of : OrderRecord fp → Option Double → ℕ → Option (OrderFillResult fp)
  unfolding to_double
  fill_of order none timestamp = none
  fill_of order (some fill_price) timestamp =
      elim (positive_value (price fp fill_price nearest_ties_away_from_zero)) [
        | none ↦ none
        | some normalized_fill ↦ some (record {
          order_id = order.order_id;
          filled = true;
          symbol = order.symbol;
          order_type = order.order_type;
          is_buy = order.is_buy;
          fill_price = to_double fp normalized_fill;
          quantity = order.quantity;
          capital_to_commit = order.capital_to_commit;
          fill_timestamp = timestamp;
        })
      ]

  -- The loop: the fills, and the orders that stay.
  unfoldable pub evaluate_orders :
      String
      → Double
      → Double
      → Double
      → ℕ
      → List (OrderRecord fp)
      → List (OrderFillResult fp) × List (OrderRecord fp)
  unfolding examine fill_of
  evaluate_orders symbol high low close timestamp [] = ([], [])
  evaluate_orders symbol high low close timestamp (order ∷ orders) =
      let (fills, kept) = evaluate_orders symbol high low close timestamp orders in
      let (examined, triggered) = examine order high low close in
      if not (str_eq order.symbol symbol)
      then (fills, order ∷ kept)
      else elim (fill_of examined triggered timestamp) [
        | none ↦ (fills, examined ∷ kept)
        | some fill ↦ (fill ∷ fills, kept)
      ]

  unfoldable pub evaluate_pending_orders :
      Portfolio fp
      → String
      → Double
      → Double
      → Double
      → ℕ
      → Portfolio fp × List (OrderFillResult fp)
  unfolding evaluate_orders
  evaluate_pending_orders p symbol high low close timestamp =
      let (fills, kept) = evaluate_orders symbol high low close timestamp p.pending_orders in
      (record p { pending_orders = kept }, fills)
