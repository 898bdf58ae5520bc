-- ===== src/Portfolio/Adding.antt =====
-- The accounting of `addToLong`.
use Prim.Native.String.{String}
use trade_bot.Portfolio.Buying.{open_long-IsSound}
use trade_bot.Base.{
  Option, arith, if◌then◌else◌, none, not, refl, some, subst, ◌&&◌, ◌+◌, ◌==◌, ◌||◌, ◌∙◌, ◌≡◌,
}
use trade_bot.Base.Int.{
  IsInt64, int_laws, le_of_ltb_ℤ, ltb_ℤ, parts_of_eq, pos, ◌+ℤ◌, ◌-ℤ◌, ◌<ℤ◌, ◌≤ℤ◌,
}
use trade_bot.Float.{CastsInRange, FloatingPoint}
use trade_bot.Financial.Units.{is_positive, nearest_ties_away_from_zero, reject_unaligned}
use trade_bot.Financial.Values.{Money, Price, Quantity, add, average_price, fee, notional, subtract}
use trade_bot.Financial.Values.Exact.{add-exact, notional-IsInt64, notional-nonneg, subtract-exact}
use trade_bot.Financial.Normalize.{money, normalized-IsInt64, price, quantity}
use trade_bot.Portfolio.{Portfolio, PositionState, invalid_argument, returns}
use trade_bot.Portfolio.Positions.{find_position, set_position}
use trade_bot.Portfolio.Marking.{value_state}
use trade_bot.Portfolio.Trades.{max_int, nonnegative_value, positive_value}
use trade_bot.Portfolio.Increases.{
  add_to_found, add_to_long, exceeds_budget, increase_position, increased,
}
use trade_bot.Portfolio.Inversion.{
  >>=-returns, after_guard, after_or_throw, after_required, nonnegative_value-some,
  positive_value-some, returned,
}
use trade_bot.Portfolio.Invariant.{
  AllHeld, AllHeld-find_position, AllHeld-set_position, IsHeld, invested-set_position,
}
use trade_bot.Portfolio.Accounting.{
  IsSound, IsSound-commit_valuation, holdings, holdings-commit_valuation,
}

increased-IsHeld :
    (s s' : PositionState) (at_price : Price) (q : Quantity) (cost charge : Money)
    (strategy_id : String)
    → IsHeld s
    → IsInt64 at_price.units
    → pos 0 <ℤ at_price.units
    → IsInt64 q.units
    → pos 0 <ℤ q.units
    → IsInt64 cost.units
    → pos 0 ≤ℤ cost.units
    → IsInt64 charge.units
    → pos 0 ≤ℤ charge.units
    → increased s at_price q cost charge strategy_id ≡ returns s'
    → IsHeld s'
      × (s'.cost_basis.units +ℤ s'.entry_fee.units
          ≡ s.cost_basis.units +ℤ s.entry_fee.units +ℤ (cost.units +ℤ charge.units))
unfolding increased
increased-IsHeld s s' at_price q cost charge strategy_id held pf pp qf qp cf cn ff fn h =
    let (quantity, eq, h0) = after_required (add s.quantity q) _ _ h in
    let (basis, ec, h1) = after_required (add s.cost_basis cost) _ _ h0 in
    let (fee, ef, h2) = after_required (add s.entry_fee charge) _ _ h1 in
    let (average, _, h3) =
      after_required (average_price basis quantity nearest_ties_away_from_zero) _ _ h2 in
    let more : (quantity.units ≡ s.quantity.units +ℤ q.units) × IsInt64 quantity.units =
      add-exact _ _ _ (held.quantity_fits) qf eq in
    let costs : (basis.units ≡ s.cost_basis.units +ℤ cost.units) × IsInt64 basis.units =
      add-exact _ _ _ (held.cost_fits) cf ec in
    let fees : (fee.units ≡ s.entry_fee.units +ℤ charge.units) × IsInt64 fee.units =
      add-exact _ _ _ (held.fee_fits) ff ef in
    subst
      (λ r.
        IsHeld r
        × (r.cost_basis.units +ℤ r.entry_fee.units
            ≡ s.cost_basis.units +ℤ s.entry_fee.units +ℤ (cost.units +ℤ charge.units)))
      (returned _ _ h3)
      (
        record {
          quantity_fits = more.1;
          quantity_pos = omega (int_laws, parts_of_eq _ _ (more.0), held.quantity_pos);
          cost_fits = costs.1;
          cost_nonneg = omega (int_laws, parts_of_eq _ _ (costs.0), held.cost_nonneg);
          fee_fits = fees.1;
          fee_nonneg = omega (int_laws, parts_of_eq _ _ (fees.0), held.fee_nonneg);
          mark_fits = pf;
          mark_pos = pp;
        },
        omega (int_laws, parts_of_eq _ _ (costs.0), parts_of_eq _ _ (fees.0)),
      )

module _ (fp : FloatingPoint) where
  increase_position-IsSound :
      (p p' : Portfolio fp) (symbol : String) (s : PositionState) (at_price : Price) (q : Quantity)
      (charge : Money) (capital_to_commit : fp.Double) (strategy_id : String)
      → IsSound fp p
      → find_position symbol p.positions ≡ some s
      → IsInt64 at_price.units
      → pos 0 <ℤ at_price.units
      → IsInt64 q.units
      → pos 0 <ℤ q.units
      → IsInt64 charge.units
      → pos 0 ≤ℤ charge.units
      → increase_position fp p symbol s at_price q charge capital_to_commit strategy_id ≡ returns p'
      → IsSound fp p' × (holdings fp p' ≡ holdings fp p)
  unfolding increase_position holdings
  increase_position-IsSound p p' symbol s at_price q charge capital strategy_id sound there pf pp qf
        qp ff fn h =
      let (cost, e0, h0) = after_required (notional at_price q nearest_ties_away_from_zero) _ _ h in
      let (debit, e1, h1) = after_required (add cost charge) _ _ h0 in
      let (_, h2) = after_guard (not (is_positive cost.units)) _ _ _ h1 in
      let (enough, h3) = after_guard (ltb_ℤ p.cash.units debit.units) _ _ _ h2 in
      let (_, h4) =
        after_guard
          (fp.lt fp.nought capital
            && exceeds_budget debit (money fp capital nearest_ties_away_from_zero))
          _ _ _ h3 in
      let (s', e5, h5) = >>=-returns (increased s at_price q cost charge strategy_id) _ _ h4 in
      let (cash, e6, h6) = after_required (subtract p.cash debit) _ _ h5 in
      let (fees, e7, h7) = after_required (add p.total_fees_paid charge) _ _ h6 in
      let (v, ev, h8) =
        >>=-returns (value_state fp p cash (set_position symbol s' p.positions)) _ _ h7 in
      let (_, h9) = after_guard (p.trade_count == max_int) _ _ _ h8 in
      let cf : IsInt64 cost.units = notional-IsInt64 _ _ _ cost e0 in
      let cn : pos 0 ≤ℤ cost.units =
        notional-nonneg at_price q _ cost pf qf (omega arith) (omega arith) e0 in
      let due : (debit.units ≡ cost.units +ℤ charge.units) × IsInt64 debit.units =
        add-exact _ _ _ cf ff e1 in
      let debited : (cash.units ≡ p.cash.units -ℤ debit.units) × IsInt64 cash.units =
        subtract-exact _ _ _ (sound.cash_fits) (due.1) e6 in
      let charged : (fees.units ≡ p.total_fees_paid.units +ℤ charge.units) × IsInt64 fees.units =
        add-exact _ _ _ (sound.fees_fit) ff e7 in
      let more =
        increased-IsHeld s s' at_price q cost charge strategy_id
          (AllHeld-find_position symbol p.positions s there (sound.held)) pf pp qf qp cf cn ff fn
          e5 in
      let held : AllHeld (set_position symbol s' p.positions) =
        AllHeld-set_position symbol s' p.positions (more.0) (sound.held) in
      let moved = invested-set_position symbol s' s p.positions there in
      let next : Portfolio fp = record p {
        cash = cash;
        positions = set_position symbol s' p.positions;
        total_fees_paid = fees;
        trade_count = p.trade_count + 1;
      } in
      let paid : pos 0 ≤ℤ cash.units =
        omega
          (int_laws, parts_of_eq _ _ (debited.0), le_of_ltb_ℤ p.cash.units debit.units enough) in
      let nonneg : pos 0 ≤ℤ fees.units =
        omega (int_laws, parts_of_eq _ _ (charged.0), fn, sound.fees_nonneg) in
      let kept : holdings fp next ≡ holdings fp p = omega (
        int_laws,
        parts_of_eq _ _ (debited.0),
        parts_of_eq _ _ (due.0),
        parts_of_eq _ _ (more.1),
        parts_of_eq _ _ moved,
      ) in
      subst (λ r. IsSound fp r × (holdings fp r ≡ holdings fp p)) (returned _ _ h9)
        (
          IsSound-commit_valuation fp p next v (debited.1) paid (charged.1) nonneg held ev,
          holdings-commit_valuation fp v next ∙ kept,
        )

  add_to_found-IsSound :
      CastsInRange fp
      → (p p' : Portfolio fp) (symbol : String) (net_price added fee capital_to_commit : fp.Double)
        (strategy_id : String) (o : Option PositionState)
      → IsSound fp p
      → find_position symbol p.positions ≡ o
      → add_to_found fp p symbol net_price added fee capital_to_commit strategy_id o ≡ returns p'
      → IsSound fp p' × (holdings fp p' ≡ holdings fp p)
  unfolding add_to_found
  add_to_found-IsSound laws p p' symbol net_price added fee capital strategy_id none sound e h =
      open_long-IsSound fp laws p p' symbol net_price 0 fee
        (if fp.lt fp.nought capital then capital else fp.sum (fp.product added net_price) fee) added
        strategy_id sound h
  add_to_found-IsSound laws p p' symbol net_price added fee capital strategy_id (some s) sound e h =
      let (_, h0) =
        after_guard (fp.le added fp.nought || fp.lt fee fp.nought || fp.lt capital fp.nought) _ _ _
          h in
      let (at_price, e1, h1) =
        after_or_throw invalid_argument
          (positive_value (price fp net_price nearest_ties_away_from_zero)) _ _ h0 in
      let (q, e2, h2) =
        after_or_throw invalid_argument (positive_value (quantity fp added reject_unaligned)) _ _
          h1 in
      let (charge, e3, h3) =
        after_or_throw invalid_argument
          (nonnegative_value (money fp fee nearest_ties_away_from_zero)) _ _ h2 in
      let (normal, pp) = positive_value-some _ at_price e1 in
      let (aligned, qp) = positive_value-some _ q e2 in
      let (charged, fn) = nonnegative_value-some _ charge e3 in
      increase_position-IsSound p p' symbol s at_price q charge capital strategy_id sound e
        (normalized-IsInt64 fp laws _ _ at_price normal) pp
        (normalized-IsInt64 fp laws _ _ q aligned) qp
        (normalized-IsInt64 fp laws _ _ charge charged) fn h3

  -- What `addToLong` returns is sound, and what it spends from cash is invested.
  pub add_to_long-IsSound :
      CastsInRange fp
      → (p p' : Portfolio fp) (symbol : String) (net_price added fee capital_to_commit : fp.Double)
        (strategy_id : String)
      → IsSound fp p
      → add_to_long fp p symbol net_price added fee capital_to_commit strategy_id ≡ returns p'
      → IsSound fp p' × (holdings fp p' ≡ holdings fp p)
  unfolding add_to_long
  add_to_long-IsSound laws p p' symbol net_price added fee capital strategy_id sound h =
      add_to_found-IsSound laws p p' symbol net_price added fee capital strategy_id
        (find_position symbol p.positions) sound refl h
