-- ===== src/Portfolio/Exits.antt =====
-- What `closePosition` and `updatePnL` return.
use Prim.Native.String.{String}
use trade_bot.Portfolio.Selling.{sale_of-IsSold}
use trade_bot.Base.{
  Bool, Option, [], arith, false, if◌then◌else◌, none, refl, some, subst, true, ℕ, ◌++◌, ◌+◌, ◌||◌,
  ◌∙◌, ◌∷◌, ◌≡◌,
}
use trade_bot.Base.Int.{
  IsInt64, int_laws, le_of_ltb_ℤ, ltb_ℤ, parts_of_eq, pos, ℤ, ◌+ℤ◌, ◌<ℤ◌, ◌≤ℤ◌,
}
use trade_bot.Float.{CastsInRange, FloatingPoint}
use trade_bot.Financial.Values.{Money, Price, Quantity, add, fee}
use trade_bot.Financial.Values.Exact.{add-exact}
use trade_bot.Financial.Normalize.{money, normalized-IsInt64, price, quantity}
use trade_bot.Portfolio.{Portfolio, PositionState, Result, invalid_argument, returns, throws}
use trade_bot.Portfolio.Positions.{find_position}
use trade_bot.Portfolio.Marking.{value_state}
use trade_bot.Portfolio.Closing.{
  Sale, after_sale, close_found, close_position, count_round_trip, leave_position, remainder_of,
  sale_of, sale_terms, trade_record, within,
}
use trade_bot.Portfolio.Inversion.{
  >>=-returns, after_counters, after_guard, after_or_throw, after_required, nonnegative_value-some,
  positive_value-some, returned,
}
use trade_bot.Portfolio.Invariant.{AllHeld-find_position, IsHeld}
use trade_bot.Portfolio.Accounting.{
  IsSound, IsSound-commit_valuation, holdings, holdings-commit_valuation,
}
use trade_bot.Portfolio.Leaving.{after_sale-exact}
use trade_bot.Financial.Units.{nearest_ties_away_from_zero, reject_unaligned}
use trade_bot.Portfolio.Trades.{nonnegative_value, positive_value}

abbrev realized_of : Result (Price × Quantity × Money × Sale) → ℤ
realized_of (returns (at_price, q, exit_fee, sale)) = sale.realized_pnl.units
realized_of (throws e) = pos 0

module _ (fp : FloatingPoint) where
  -- The profit that a call of `closePosition` realizes.
  unfoldable pub realized : Option PositionState → fp.Double → fp.Double → fp.Double → ℤ
  unfolding sale_terms
  realized none net_price fee explicit_quantity = pos 0
  realized (some prior) net_price fee explicit_quantity =
      realized_of (sale_terms fp prior net_price fee explicit_quantity)

  leave_position-IsSound :
      (p p' : Portfolio fp) (symbol : String) (prior : PositionState) (at_price : Price)
      (timestamp : ℕ) (q : Quantity) (exit_fee : Money) (sale : Sale) (strategy_id : String)
      → IsSound fp p
      → find_position symbol p.positions ≡ some prior
      → IsInt64 at_price.units
      → pos 0 <ℤ at_price.units
      → pos 0 <ℤ q.units
      → q.units ≤ℤ prior.quantity.units
      → IsInt64 exit_fee.units
      → pos 0 ≤ℤ exit_fee.units
      → sale_of prior at_price q exit_fee ≡ returns sale
      → leave_position fp p symbol prior at_price timestamp q exit_fee sale strategy_id ≡ returns p'
      → IsSound fp p' × (holdings fp p' ≡ holdings fp p +ℤ sale.realized_pnl.units)
  unfolding leave_position holdings
  leave_position-IsSound p p' symbol prior at_price timestamp q exit_fee sale strategy_id sound
        there pf pp qp below ff fn made h =
      let (o, e0, h0) = >>=-returns (remainder_of prior at_price q sale) _ _ h in
      let (cash, e1, h1) = after_required (add p.cash sale.net_proceeds) _ _ h0 in
      let (fees, e2, h2) = after_required (add p.total_fees_paid exit_fee) _ _ h1 in
      let (v, ev, h3) =
        >>=-returns (value_state fp p cash (after_sale symbol o p.positions)) _ _ h2 in
      let held : IsHeld prior = AllHeld-find_position symbol p.positions prior there (sound.held) in
      let sold = sale_of-IsSold prior at_price q exit_fee sale held ff qp below made in
      let (all, left) =
        after_sale-exact symbol p.positions prior at_price q exit_fee sale o (sound.held) there pf
          pp qp below made sold e0 in
      let credited : (cash.units ≡ p.cash.units +ℤ sale.net_proceeds.units) × IsInt64 cash.units =
        add-exact _ _ _ (sound.cash_fits) (sold.net_fits) e1 in
      let charged : (fees.units ≡ p.total_fees_paid.units +ℤ exit_fee.units) × IsInt64 fees.units =
        add-exact _ _ _ (sound.fees_fit) ff e2 in
      let next : Portfolio fp = record p {
        cash = cash;
        positions = after_sale symbol o p.positions;
        total_fees_paid = fees;
        trade_log =
            p.trade_log
            ++ (trade_record fp symbol prior at_price timestamp q sale strategy_id ∷ []);
        trade_count = p.trade_count + 1;
        round_trip_count = count_round_trip o p.round_trip_count;
      } in
      let nonneg_cash : pos 0 ≤ℤ cash.units =
        omega (int_laws, parts_of_eq _ _ (credited.0), sound.cash_nonneg, sold.net_nonneg) in
      let nonneg : pos 0 ≤ℤ fees.units =
        omega (int_laws, parts_of_eq _ _ (charged.0), fn, sound.fees_nonneg) in
      let gained : holdings fp next ≡ holdings fp p +ℤ sale.realized_pnl.units = omega (
        int_laws,
        parts_of_eq _ _ (credited.0),
        parts_of_eq _ _ left,
        parts_of_eq _ _ (sold.profit),
      ) in
      subst (λ r. IsSound fp r × (holdings fp r ≡ holdings fp p +ℤ sale.realized_pnl.units))
        (after_counters p.trade_count o p.round_trip_count _ p' h3)
        (
          IsSound-commit_valuation fp p next v (credited.1) nonneg_cash (charged.1) nonneg all ev,
          holdings-commit_valuation fp v next ∙ gained,
        )

  -- The quantity that is sold is positive and within the position.
  quantity_within :
      (prior : PositionState) (explicit : fp.Double) (given : Bool) (q : Quantity)
      → IsHeld prior
      → (if given
          then within prior (quantity fp explicit reject_unaligned)
          else returns prior.quantity)
        ≡ returns q
      → (pos 0 <ℤ q.units) × (q.units ≤ℤ prior.quantity.units)
  unfolding within
  quantity_within prior explicit true q held h =
      let (r, e, h0) =
        after_or_throw invalid_argument (positive_value (quantity fp explicit reject_unaligned)) _ _
          h in
      let (enough, h1) = after_guard (ltb_ℤ prior.quantity.units r.units) _ _ _ h0 in
      let (_, positive) = positive_value-some (quantity fp explicit reject_unaligned) r e in
      subst (λ x. (pos 0 <ℤ x.units) × (x.units ≤ℤ prior.quantity.units)) (returned r q h1)
        (positive, le_of_ltb_ℤ prior.quantity.units r.units enough)
  quantity_within prior explicit false q held h =
      subst (λ x. (pos 0 <ℤ x.units) × (x.units ≤ℤ prior.quantity.units))
        (returned prior.quantity q h) (held.quantity_pos, omega arith)

  sale_terms-fit :
      CastsInRange fp
      → (prior : PositionState) (net_price fee explicit : fp.Double) (at_price : Price)
        (q : Quantity) (exit_fee : Money) (sale : Sale)
      → IsHeld prior
      → sale_terms fp prior net_price fee explicit ≡ returns (at_price, q, exit_fee, sale)
      → IsInt64 at_price.units
        × (pos 0 <ℤ at_price.units)
        × (pos 0 <ℤ q.units)
        × (q.units ≤ℤ prior.quantity.units)
        × IsInt64 exit_fee.units
        × (pos 0 ≤ℤ exit_fee.units)
        × (sale_of prior at_price q exit_fee ≡ returns sale)
  unfolding sale_terms
  sale_terms-fit laws prior net_price fee explicit at_price q exit_fee sale held h =
      let (_, h0) = after_guard (fp.lt explicit fp.nought || fp.lt fee fp.nought) _ _ _ h in
      let (a, e1, h1) =
        after_or_throw invalid_argument
          (positive_value (price fp net_price nearest_ties_away_from_zero)) _ _ h0 in
      let (f, e2, h2) =
        after_or_throw invalid_argument
          (nonnegative_value (money fp fee nearest_ties_away_from_zero)) _ _ h1 in
      let (r, e3, h3) =
        >>=-returns
          (if fp.lt fp.nought explicit
            then within prior (quantity fp explicit reject_unaligned)
            else returns prior.quantity)
          _ _ h2 in
      let (s, e4, h4) = >>=-returns (sale_of prior a r f) _ _ h3 in
      let (normal, pp) = positive_value-some _ a e1 in
      let (charge, fn) = nonnegative_value-some _ f e2 in
      let (qp, below) = quantity_within prior explicit (fp.lt fp.nought explicit) r held e3 in
      let same : (a, r, f, s) ≡ (at_price, q, exit_fee, sale) = returned _ _ h4 in
      subst
        (λ (t : Price × Quantity × Money × Sale).
          IsInt64 t.0.units
          × (pos 0 <ℤ t.0.units)
          × (pos 0 <ℤ t.1.units)
          × (t.1.units ≤ℤ prior.quantity.units)
          × IsInt64 t.2.units
          × (pos 0 ≤ℤ t.2.units)
          × (sale_of prior t.0 t.1 t.2 ≡ returns t.3))
        same
        (
          normalized-IsInt64 fp laws _ _ a normal,
          pp,
          qp,
          below,
          normalized-IsInt64 fp laws _ _ f charge,
          fn,
          e4,
        )

  close_found-IsSound :
      CastsInRange fp
      → (p p' : Portfolio fp) (symbol : String) (net_price : fp.Double) (timestamp : ℕ)
        (fee : fp.Double) (strategy_id : String) (explicit : fp.Double) (o : Option PositionState)
      → IsSound fp p
      → find_position symbol p.positions ≡ o
      → close_found fp p symbol net_price timestamp fee strategy_id explicit o ≡ returns p'
      → IsSound fp p' × (holdings fp p' ≡ holdings fp p +ℤ realized o net_price fee explicit)
  unfolding close_found realized
  close_found-IsSound laws p p' symbol net_price timestamp fee strategy_id explicit none sound e h =
      subst (λ r. IsSound fp r × (holdings fp r ≡ holdings fp p +ℤ pos 0)) (returned p p' h)
        (sound, omega int_laws)
  close_found-IsSound laws p p' symbol net_price timestamp fee strategy_id explicit (some prior)
        sound e h =
      let held : IsHeld prior = AllHeld-find_position symbol p.positions prior e (sound.held) in
      let ((at_price, q, exit_fee, sale), terms, h0) =
        >>=-returns (sale_terms fp prior net_price fee explicit) _ _ h in
      let (pf, pp, qp, below, ff, fn, made) =
        sale_terms-fit laws prior net_price fee explicit at_price q exit_fee sale held terms in
      rw (terms) (
        leave_position-IsSound p p' symbol prior at_price timestamp q exit_fee sale strategy_id
          sound e pf pp qp below ff fn made h0)

  pub close_position-IsSound :
      CastsInRange fp
      → (p p' : Portfolio fp) (symbol : String) (net_price : fp.Double) (timestamp : ℕ)
        (fee : fp.Double) (strategy_id : String) (explicit : fp.Double)
      → IsSound fp p
      → close_position fp p symbol net_price timestamp fee strategy_id explicit ≡ returns p'
      → IsSound fp p'
        × (holdings fp p'
            ≡ holdings fp p +ℤ realized (find_position symbol p.positions) net_price fee explicit)
  unfolding close_position
  close_position-IsSound laws p p' symbol net_price timestamp fee strategy_id explicit sound h =
      close_found-IsSound laws p p' symbol net_price timestamp fee strategy_id explicit
        (find_position symbol p.positions) sound refl h
