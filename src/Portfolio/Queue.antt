-- ===== src/Portfolio/Queue.antt =====
-- The queue of pending orders: what `placePendingOrder`, `cancelPendingOrder` and
-- `evaluatePendingOrders` do to it together.
use mathlib.Core.List.{Perm, perm_middle}
use mathlib.Core.List.Perm
use Prim.Native.String.{String}
use trade_bot.Base.{
  Bool, Bool-cases, List, Option, Option-cases, [], arith, false, inl, inr, map, none, not, refl,
  some, subst, sym, true, ℕ, ◌++◌, ◌+◌, ◌<◌, ◌==◌, ◌||◌, ◌∙◌, ◌∷◌, ◌≡◌, ◌⊎◌,
}
use trade_bot.Float.{FloatingPoint}
use trade_bot.Portfolio.{OrderFillResult, OrderRecord, Portfolio}
use trade_bot.Portfolio.Orders.{
  OrderAmounts, amounts_of, cancel_pending_order, evaluate_orders, examine, fill_of, max_order_id,
  place_pending_order, queued_order, remove_order, trail,
}
use trade_bot.Base.Text.{is_empty, str_eq}

module _ (fp : FloatingPoint) where
  -- The identities of a queue, all of them positive and below the next one.
  unfoldable pub AllNumbered : ℕ → List (OrderRecord fp) → Type 0
  AllNumbered n [] = 0 < n
  AllNumbered n (order ∷ orders) =
      (0 < order.order_id) × (order.order_id < n) × AllNumbered n orders

  remove_order-last :
      (n : ℕ) (orders : List (OrderRecord fp)) (order : OrderRecord fp)
      → AllNumbered n orders
      → order.order_id ≡ n
      → remove_order fp n (orders ++ (order ∷ [])) ≡ some orders
  unfolding AllNumbered remove_order
  remove_order-last n [] order all same =
      let here : (order.order_id == n) ≡ true = ground (arith, same) in rw here refl
  remove_order-last n (o ∷ orders) order all same =
      let other : (o.order_id == n) ≡ false = ground (arith, all.1) in
      rw (other, remove_order-last n orders order (all.2) same) refl

  remove_order-missing :
      (n : ℕ) (orders : List (OrderRecord fp))
      → AllNumbered n orders
      → remove_order fp 0 orders ≡ none
  unfolding AllNumbered remove_order
  remove_order-missing n [] all = refl
  remove_order-missing n (o ∷ orders) all =
      let other : (o.order_id == 0) ≡ false = ground (arith, all.0) in
      rw (other, remove_order-missing n orders (all.2)) refl

  lowest : (n : ℕ) (orders : List (OrderRecord fp)) → AllNumbered n orders → (n == 0) ≡ false
  unfolding AllNumbered
  lowest n [] all = ground (arith, all)
  lowest n (o ∷ orders) all = ground (arith, all.0, all.1)

  -- An order that is placed and cancelled.
  abbrev pub withdrawn : Portfolio fp → OrderRecord fp → Portfolio fp × Bool
  withdrawn p order =
      let (next, id) = place_pending_order fp p order in cancel_pending_order fp next id

  abbrev accepted_as : Portfolio fp → OrderRecord fp → Portfolio fp × ℕ
  accepted_as p order = (
    record p {
      pending_orders = p.pending_orders ++ (order ∷ []);
      next_order_id = p.next_order_id + 1;
    },
    p.next_order_id,
  )

  place-cases :
      (p : Portfolio fp) (order : OrderRecord fp)
      → (place_pending_order fp p order ≡ (p, 0))
        ⊎ ((amounts : OrderAmounts fp) × (place_pending_order fp p order
              ≡ accepted_as p (queued_order fp order amounts p.next_order_id)))
  unfolding place_pending_order
  place-cases p order =
      elim (Bool-cases (
        is_empty order.symbol
        || fp.lt order.quantity fp.nought
        || fp.lt order.capital_to_commit fp.nought
        || fp.lt order.limit_price fp.nought
        || fp.lt order.trail_offset fp.nought
        || (p.next_order_id == max_order_id))) [
          | inl refused ↦ inl (rw (refused, place_pending_order) refl)
          | inr accepted ↦ elim (Option-cases (amounts_of fp order)) [
            | inl e ↦ inl (rw (accepted, e, place_pending_order) refl)
            | inr (amounts, e) ↦ inr (amounts, rw (accepted, e, place_pending_order) refl)
          ]
        ]

  -- A pair of a portfolio and an identity whose cancellation gives back the queue of `p`.
  abbrev Withdraws : Portfolio fp → Portfolio fp × ℕ → Type 0
  Withdraws p placed =
      ((cancel_pending_order fp placed.0 placed.1).0.pending_orders ≡ p.pending_orders)
      × ((cancel_pending_order fp placed.0 placed.1).1 ≡ not (placed.1 == 0))

  -- Of a queue whose identities are positive and below the next one: cancelling the identity that
  -- placing an order returned gives the queue that was there before, whether the order was accepted
  -- or refused, and the cancellation succeeds exactly when the order was accepted.
  pub cancel_pending_order-place_pending_order :
      (p : Portfolio fp) (order : OrderRecord fp)
      → AllNumbered p.next_order_id p.pending_orders
      → ((withdrawn p order).0.pending_orders ≡ p.pending_orders)
        × ((withdrawn p order).1 ≡ not ((place_pending_order fp p order).1 == 0))
  unfolding queued_order cancel_pending_order
  cancel_pending_order-place_pending_order p order all = elim (place-cases p order) [
    | inl e ↦
        let missing = remove_order-missing p.next_order_id p.pending_orders all in
        subst (Withdraws p) (sym e) (rw (missing, cancel_pending_order) (refl, refl))
    | inr (amounts, e) ↦
        let placed : OrderRecord fp = queued_order fp order amounts p.next_order_id in
        let last = remove_order-last p.next_order_id p.pending_orders placed all refl in
        let positive = lowest p.next_order_id p.pending_orders all in
        subst (Withdraws p) (sym e) (rw (last, positive, cancel_pending_order) (refl, refl))
  ]

  examine-order_id :
      (order : OrderRecord fp) (high low close : fp.Double)
      → (examine fp order high low close).0.order_id ≡ order.order_id
  unfolding examine trail
  examine-order_id order high low close = ground arith

  fill_of-order_id :
      (order : OrderRecord fp) (triggered : Option fp.Double) (timestamp : ℕ)
      (fill : OrderFillResult fp)
      → fill_of fp order triggered timestamp ≡ some fill
      → fill.order_id ≡ order.order_id
  unfolding fill_of
  fill_of-order_id order none timestamp fill h = cc
  fill_of-order_id order (some x) timestamp fill h = ground arith

  abbrev pub order_ids : List (OrderRecord fp) → List ℕ
  order_ids orders = map (λ order. order.order_id) orders

  abbrev pub fill_ids : List (OrderFillResult fp) → List ℕ
  fill_ids fills = map (λ fill. fill.order_id) fills

  -- A candle fills some orders of the queue and keeps the others: every identity of the queue is
  -- that of one fill or of one order that stays, as often as it was in the queue.
  pub evaluate_orders-Perm :
      (symbol : String) (high low close : fp.Double) (timestamp : ℕ)
      (orders : List (OrderRecord fp))
      → Perm
          (fill_ids (evaluate_orders fp symbol high low close timestamp orders).0
            ++ order_ids (evaluate_orders fp symbol high low close timestamp orders).1)
          (order_ids orders)
  unfolding evaluate_orders
  evaluate_orders-Perm symbol high low close timestamp [] = Perm.rfl
  evaluate_orders-Perm symbol high low close timestamp (order ∷ orders) =
      let rest = evaluate_orders-Perm symbol high low close timestamp orders in
      let kept_id = examine-order_id order high low close in
      elim (Bool-cases (not (str_eq order.symbol symbol))) [
        | inl other ↦ rw other (Perm.trans (perm_middle _ _) (Perm.cons _ rest))
        | inr same ↦
            elim (Option-cases (
              fill_of fp (examine fp order high low close).0 (examine fp order high low close).1
                timestamp)) [
                  | inl e ↦ rw (same, e, kept_id) (Perm.trans (perm_middle _ _) (Perm.cons _ rest))
                  | inr (fill, e) ↦
                      let filled =
                        fill_of-order_id (examine fp order high low close).0
                          (examine fp order high low close).1 timestamp fill e
                        ∙ kept_id in
                      rw (same, e, filled) (Perm.cons _ rest)
                ]
      ]
