-- ===== src/Portfolio/Selling.antt =====
-- The accounting of a sale.
use trade_bot.Base.{ap, arith, some, some_injective, subst, sym, ◌∙◌, ◌≡◌}
use trade_bot.Base.Int.{IsInt64, int_laws, pos, ℤ, ◌-ℤ◌, ◌<ℤ◌, ◌≤ℤ◌}
use trade_bot.Financial.Units.{nearest_ties_away_from_zero}
use trade_bot.Financial.Values.{
  Money, Price, Quantity, add, fee, notional, of_units, proportional, subtract,
}
use trade_bot.Financial.Values.Exact.{notional-IsInt64, proportional-IsInt64, subtract-exact}
use trade_bot.Financial.Values.Prices.{proportional_share}
use trade_bot.Portfolio.{PositionState, logic_error, returns}
use trade_bot.Portfolio.Trades.{nonnegative_value}
use trade_bot.Portfolio.Closing.{Sale, sale_of}
use trade_bot.Portfolio.Inversion.{after_or_throw, after_required, nonnegative_value-some, returned}
use trade_bot.Portfolio.Invariant.{IsHeld}

-- What a sale of `q` units out of a position holds: the proceeds, the share of the cost and of the
-- entry fee, and the profit.
pub record IsSold (prior : PositionState) (exit_fee : Money) (sale : Sale) : Type 0 where
  pub net_fits : IsInt64 sale.net_proceeds.units
  pub net_nonneg : pos 0 ≤ℤ sale.net_proceeds.units
  pub cost_fits : IsInt64 sale.allocated_cost.units
  pub cost_nonneg : pos 0 ≤ℤ sale.allocated_cost.units
  pub cost_within : sale.allocated_cost.units ≤ℤ prior.cost_basis.units
  pub fee_fits : IsInt64 sale.allocated_entry_fee.units
  pub fee_nonneg : pos 0 ≤ℤ sale.allocated_entry_fee.units
  pub fee_within : sale.allocated_entry_fee.units ≤ℤ prior.entry_fee.units
  pub profit :
      sale.realized_pnl.units
      ≡ sale.net_proceeds.units -ℤ sale.allocated_cost.units -ℤ sale.allocated_entry_fee.units

-- A share that is returned lies within the whole.
share :
    (total : Money) (part whole : Quantity) (m : Money)
    → IsInt64 total.units
    → pos 0 ≤ℤ total.units
    → IsInt64 whole.units
    → pos 0 <ℤ part.units
    → part.units ≤ℤ whole.units
    → proportional total part whole nearest_ties_away_from_zero ≡ some m
    → IsInt64 m.units × (pos 0 ≤ℤ m.units) × (m.units ≤ℤ total.units)
share total part whole m tf tn wf pp within_whole h =
    let ((cost, e, nonneg, below), _) =
      proportional_share total part whole nearest_ties_away_from_zero tf wf tn (omega arith)
        within_whole (omega arith) in
    let same : cost ≡ m = some_injective cost m (sym e ∙ h) in
    (
      proportional-IsInt64 total part whole nearest_ties_away_from_zero m h,
      subst (λ x. pos 0 ≤ℤ x.units) same nonneg,
      subst (λ x. x.units ≤ℤ total.units) same below,
    )

-- The share of everything is everything.
share_of_whole :
    (total : Money) (part whole : Quantity) (m : Money)
    → IsInt64 total.units
    → pos 0 ≤ℤ total.units
    → IsInt64 whole.units
    → pos 0 <ℤ whole.units
    → part.units ≡ whole.units
    → proportional total part whole nearest_ties_away_from_zero ≡ some m
    → m ≡ total
share_of_whole total part whole m tf tn wf pw same h =
    let (_, e) =
      proportional_share total whole whole nearest_ties_away_from_zero tf wf tn (omega arith)
        (omega arith) pw in
    let h' : proportional total whole whole nearest_ties_away_from_zero ≡ some m =
      subst (λ x. proportional total x whole nearest_ties_away_from_zero ≡ some m)
        (ap of_units same) h in
    some_injective m total (sym h' ∙ e)

-- The profit is what comes in, less the shares.
profit_of :
    (gross fee cost share net pnl rest realized : ℤ)
    → net ≡ gross -ℤ fee
    → pnl ≡ gross -ℤ cost
    → rest ≡ pnl -ℤ fee
    → realized ≡ rest -ℤ share
    → realized ≡ net -ℤ cost -ℤ share
profit_of gross fee cost share net pnl rest realized a b c d = rw (d, c, b, a) (omega int_laws)

-- A sale of a positive quantity within a held position takes a share of its cost and of its entry
-- fee that is not negative and no more than the whole, its net proceeds are not negative, and its
-- realized profit is the net proceeds less the two shares.
pub sale_of-IsSold :
    (prior : PositionState) (at_price : Price) (q : Quantity) (exit_fee : Money) (sale : Sale)
    → IsHeld prior
    → IsInt64 exit_fee.units
    → pos 0 <ℤ q.units
    → q.units ≤ℤ prior.quantity.units
    → sale_of prior at_price q exit_fee ≡ returns sale
    → IsSold prior exit_fee sale
unfolding sale_of
sale_of-IsSold prior at_price q exit_fee sale held ff qp below h =
    let (gross, e0, h0) = after_required (notional at_price q nearest_ties_away_from_zero) _ _ h in
    let (net, e1, h1) =
      after_or_throw logic_error (nonnegative_value (subtract gross exit_fee)) _ _ h0 in
    let (cost, e2, h2) =
      after_required (proportional prior.cost_basis q prior.quantity nearest_ties_away_from_zero) _
        _ h1 in
    let (fee, e3, h3) =
      after_required (proportional prior.entry_fee q prior.quantity nearest_ties_away_from_zero) _ _
        h2 in
    let (pnl, e4, h4) = after_required (subtract gross cost) _ _ h3 in
    let (after_fee, e5, h5) = after_required (subtract pnl exit_fee) _ _ h4 in
    let (realized, e6, h6) = after_required (subtract after_fee fee) _ _ h5 in
    let (fees, e7, h7) = after_required (add exit_fee fee) _ _ h6 in
    let gf : IsInt64 gross.units = notional-IsInt64 _ _ _ gross e0 in
    let (taken, nn) = nonnegative_value-some _ net e1 in
    let nets : (net.units ≡ gross.units -ℤ exit_fee.units) × IsInt64 net.units =
      subtract-exact _ _ _ gf ff taken in
    let (cf, cn, cw) =
      share _ _ _ cost (held.cost_fits) (held.cost_nonneg) (held.quantity_fits) qp below e2 in
    let (fef, fen, few) =
      share _ _ _ fee (held.fee_fits) (held.fee_nonneg) (held.quantity_fits) qp below e3 in
    let gains : (pnl.units ≡ gross.units -ℤ cost.units) × IsInt64 pnl.units =
      subtract-exact _ _ _ gf cf e4 in
    let less : (after_fee.units ≡ pnl.units -ℤ exit_fee.units) × IsInt64 after_fee.units =
      subtract-exact _ _ _ (gains.1) ff e5 in
    let last : (realized.units ≡ after_fee.units -ℤ fee.units) × IsInt64 realized.units =
      subtract-exact _ _ _ (less.1) fef e6 in
    subst (IsSold prior exit_fee) (returned _ _ h7) (record {
      net_fits = nets.1;
      net_nonneg = nn;
      cost_fits = cf;
      cost_nonneg = cn;
      cost_within = cw;
      fee_fits = fef;
      fee_nonneg = fen;
      fee_within = few;
      profit =
          profit_of gross.units exit_fee.units cost.units fee.units net.units pnl.units
            after_fee.units realized.units (nets.0) (gains.0) (less.0) (last.0);
    })

-- A sale of the whole position allocates its whole cost and its whole entry fee.
pub sale_of-whole :
    (prior : PositionState) (at_price : Price) (q : Quantity) (exit_fee : Money) (sale : Sale)
    → IsHeld prior
    → q.units ≡ prior.quantity.units
    → sale_of prior at_price q exit_fee ≡ returns sale
    → (sale.allocated_cost ≡ prior.cost_basis) × (sale.allocated_entry_fee ≡ prior.entry_fee)
unfolding sale_of
sale_of-whole prior at_price q exit_fee sale held same h =
    let (gross, _, h0) = after_required (notional at_price q nearest_ties_away_from_zero) _ _ h in
    let (net, _, h1) =
      after_or_throw logic_error (nonnegative_value (subtract gross exit_fee)) _ _ h0 in
    let (cost, e2, h2) =
      after_required (proportional prior.cost_basis q prior.quantity nearest_ties_away_from_zero) _
        _ h1 in
    let (fee, e3, h3) =
      after_required (proportional prior.entry_fee q prior.quantity nearest_ties_away_from_zero) _ _
        h2 in
    let (pnl, _, h4) = after_required (subtract gross cost) _ _ h3 in
    let (after_fee, _, h5) = after_required (subtract pnl exit_fee) _ _ h4 in
    let (realized, _, h6) = after_required (subtract after_fee fee) _ _ h5 in
    let (fees, _, h7) = after_required (add exit_fee fee) _ _ h6 in
    subst (λ x. (x.allocated_cost ≡ prior.cost_basis) × (x.allocated_entry_fee ≡ prior.entry_fee))
      (returned _ _ h7)
      (
        share_of_whole _ q _ cost (held.cost_fits) (held.cost_nonneg) (held.quantity_fits)
            (held.quantity_pos) same e2,
        share_of_whole _ q _ fee (held.fee_fits) (held.fee_nonneg) (held.quantity_fits)
            (held.quantity_pos) same e3,
      )
