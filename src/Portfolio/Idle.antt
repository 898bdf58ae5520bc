-- ===== src/Portfolio/Idle.antt =====
-- The calls that move no money: a new mark, and the queue of pending orders.
use Prim.Native.String.{String}
use trade_bot.Base.{
  Bool-cases, List, Option, Option-cases, [], inl, inr, none, refl, some, subst, ℕ, ◌++◌, ◌+◌, ◌==◌,
  ◌||◌, ◌∙◌, ◌∷◌, ◌≡◌,
}
use trade_bot.Base.Int.{int_laws, parts_of_eq, pos, ◌+ℤ◌}
use trade_bot.Base.Text.{is_empty}
use trade_bot.Float.{CastsInRange, FloatingPoint}
use trade_bot.Financial.Units.{nearest_ties_away_from_zero}
use trade_bot.Financial.Normalize.{normalized-IsInt64, price}
use trade_bot.Portfolio.{OrderRecord, Portfolio, PositionState, invalid_argument, returns}
use trade_bot.Portfolio.Positions.{find_position, set_position}
use trade_bot.Portfolio.Marking.{value_state}
use trade_bot.Portfolio.Trades.{positive_value}
use trade_bot.Portfolio.Closing.{mark_found}
use trade_bot.Portfolio.Orders.{
  amounts_of, cancel_pending_order, max_order_id, place_pending_order, queued_order, remove_order,
}
use trade_bot.Portfolio.Inversion.{>>=-returns, after_or_throw, positive_value-some, returned}
use trade_bot.Portfolio.Invariant.{
  AllHeld-find_position, AllHeld-set_position, IsHeld, invested-set_position,
}
use trade_bot.Portfolio.Accounting.{
  IsSound, IsSound-commit_valuation, holdings, holdings-commit_valuation,
}

module _ (fp : FloatingPoint) where
  -- The queue of orders is no money.
  pending :
      (p : Portfolio fp) (orders : List (OrderRecord fp)) (id : ℕ)
      → IsSound fp p
      → IsSound fp (record p { pending_orders = orders; next_order_id = id })
        × (holdings fp (record p { pending_orders = orders; next_order_id = id })
            ≡ holdings fp p +ℤ pos 0)
  unfolding holdings
  pending p orders id sound = (
    record {
      cash_fits = sound.cash_fits;
      cash_nonneg = sound.cash_nonneg;
      fees_fit = sound.fees_fit;
      fees_nonneg = sound.fees_nonneg;
      held = sound.held;
      valued = record {
        unrealized = sound.valued.unrealized;
        equity = sound.valued.equity;
        peak = sound.valued.peak;
      };
    },
    omega int_laws,
  )

  pub mark_found-IsSound :
      CastsInRange fp
      → (p p' : Portfolio fp) (symbol : String) (current_price : fp.Double)
        (o : Option PositionState)
      → IsSound fp p
      → find_position symbol p.positions ≡ o
      → mark_found fp p symbol current_price o ≡ returns p'
      → IsSound fp p' × (holdings fp p' ≡ holdings fp p)
  unfolding mark_found holdings
  mark_found-IsSound laws p p' symbol current_price none sound e h =
      subst (λ r. IsSound fp r × (holdings fp r ≡ holdings fp p)) (returned p p' h) (sound, refl)
  mark_found-IsSound laws p p' symbol current_price (some s) sound e h =
      let (mark, e0, h0) =
        after_or_throw invalid_argument
          (positive_value (price fp current_price nearest_ties_away_from_zero)) _ _ h in
      let (normal, positive) = positive_value-some _ mark e0 in
      let held = AllHeld-find_position symbol p.positions s e (sound.held) in
      let marked_state : PositionState = record s { last_mark_price = mark } in
      let good : IsHeld marked_state = record {
        quantity_fits = held.quantity_fits;
        quantity_pos = held.quantity_pos;
        cost_fits = held.cost_fits;
        cost_nonneg = held.cost_nonneg;
        fee_fits = held.fee_fits;
        fee_nonneg = held.fee_nonneg;
        mark_fits = normalized-IsInt64 fp laws _ _ mark normal;
        mark_pos = positive;
      } in
      let next : Portfolio fp = record p {
        positions = set_position symbol marked_state p.positions;
      } in
      let (v, ev, h1) = >>=-returns (value_state fp p p.cash next.positions) _ _ h0 in
      let kept : holdings fp next ≡ holdings fp p =
        omega
          (int_laws, parts_of_eq _ _ (invested-set_position symbol marked_state s p.positions e)) in
      subst (λ r. IsSound fp r × (holdings fp r ≡ holdings fp p)) (returned _ p' h1)
        (
          IsSound-commit_valuation fp p next v (sound.cash_fits) (sound.cash_nonneg)
              (sound.fees_fit) (sound.fees_nonneg)
              (AllHeld-set_position symbol marked_state p.positions good (sound.held)) ev,
          holdings-commit_valuation fp v next ∙ kept,
        )

  -- A call that places, cancels or evaluates orders changes only the queue and the next identity.
  abbrev pub OnlyQueue : Portfolio fp → Portfolio fp → Type 0
  OnlyQueue p p' =
      (orders : List (OrderRecord fp)) × (id : ℕ) × (record p {
        pending_orders = orders;
        next_order_id = id;
      }
        ≡ p')

  pub place-OnlyQueue :
      (p : Portfolio fp) (order : OrderRecord fp) → OnlyQueue p (place_pending_order fp p order).0
  unfolding place_pending_order
  place-OnlyQueue p order =
      elim (Bool-cases (
        is_empty order.symbol
        || fp.lt order.quantity fp.nought
        || fp.lt order.capital_to_commit fp.nought
        || fp.lt order.limit_price fp.nought
        || fp.lt order.trail_offset fp.nought
        || (p.next_order_id == max_order_id))) [
          | inl refused ↦ rw refused (p.pending_orders, p.next_order_id, refl)
          | inr accepted ↦ elim (Option-cases (amounts_of fp order)) [
            | inl e ↦ rw (accepted, e) (p.pending_orders, p.next_order_id, refl)
            | inr (amounts, e) ↦
                rw (accepted, e)
                  (
                    p.pending_orders ++ (queued_order fp order amounts p.next_order_id ∷ []),
                    p.next_order_id + 1,
                    refl,
                  )
          ]
        ]

  pub cancel-OnlyQueue : (p : Portfolio fp) (id : ℕ) → OnlyQueue p (cancel_pending_order fp p id).0
  unfolding cancel_pending_order
  cancel-OnlyQueue p id = elim (Option-cases (remove_order fp id p.pending_orders)) [
    | inl e ↦ rw (e, cancel_pending_order) (p.pending_orders, p.next_order_id, refl)
    | inr (rest, e) ↦ rw (e, cancel_pending_order) (rest, p.next_order_id, refl)
  ]

  pub queue-IsSound :
      (p p' : Portfolio fp)
      → IsSound fp p
      → OnlyQueue p p'
      → IsSound fp p' × (holdings fp p' ≡ holdings fp p +ℤ pos 0)
  queue-IsSound p p' sound (orders, id, same) =
      subst (λ r. IsSound fp r × (holdings fp r ≡ holdings fp p +ℤ pos 0)) same
        (pending p orders id sound)
