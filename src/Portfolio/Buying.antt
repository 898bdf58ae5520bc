-- ===== src/Portfolio/Buying.antt =====
-- The accounting of `openLong`.
use Prim.Native.String.{String}
use trade_bot.Base.{
  Bool, Option, arith, false, if◌then◌else◌, not, some, subst, true, ℕ, ◌+◌, ◌==◌, ◌||◌, ◌∙◌, ◌∷◌,
  ◌≡◌,
}
use trade_bot.Base.Int.{
  IsInt64, int_laws, le_of_ltb_ℤ, ltb_ℤ, parts_of_eq, pos, ◌+ℤ◌, ◌-ℤ◌, ◌<ℤ◌, ◌≤ℤ◌,
}
use trade_bot.Float.{CastsInRange, FloatingPoint}
use trade_bot.Financial.Units.{
  is_positive, nearest_ties_away_from_zero, reject_unaligned, toward_zero,
}
use trade_bot.Financial.Values.{
  Money, Price, Quantity, average_price, fee, quantity_for_notional, subtract,
}
use trade_bot.Financial.Values.Exact.{
  add-exact, notional-IsInt64, notional-nonneg, quantity_for_notional-IsInt64, subtract-exact,
}
use trade_bot.Financial.Normalize.{money, normalized-IsInt64, price, quantity}
use trade_bot.Portfolio.{Portfolio, PositionState, invalid_argument, logic_error, returns}
use trade_bot.Portfolio.Trades.{
  Sizing, budget_of, cost_of, enter_position, max_int, nonnegative_value, open_long, positive_value,
  size_by_budget, size_explicitly,
}
use trade_bot.Portfolio.Inversion.{
  >>=-returns, after_guard, after_or_throw, after_required, nonnegative_value-some,
  positive_value-some, returned,
}
use trade_bot.Portfolio.Invariant.{AllHeld, IsHeld, invested}
use trade_bot.Portfolio.Accounting.{
  IsSound, IsSound-commit_valuation, holdings, holdings-commit_valuation,
}
use trade_bot.Base.Text.{is_empty}
use trade_bot.Portfolio.Positions.{contains_position}

-- What a sizing holds at an entry fee.
pub record IsBought (entry_fee : Money) (s : Sizing) : Type 0 where
  pub quantity_fits : IsInt64 s.quantity.units
  pub quantity_pos : pos 0 <ℤ s.quantity.units
  pub cost_fits : IsInt64 s.cost_basis.units
  pub cost_nonneg : pos 0 ≤ℤ s.cost_basis.units
  pub debit_fits : IsInt64 s.debit.units
  pub debit_exact : s.debit.units ≡ s.cost_basis.units +ℤ entry_fee.units

cost_of-IsBought :
    (at_price : Price) (entry_fee : Money) (q : Quantity) (s : Sizing)
    → IsInt64 at_price.units
    → pos 0 <ℤ at_price.units
    → IsInt64 entry_fee.units
    → IsInt64 q.units
    → pos 0 <ℤ q.units
    → cost_of at_price entry_fee q ≡ returns s
    → IsBought entry_fee s
unfolding cost_of
cost_of-IsBought at_price entry_fee q s pf pp ff qf qp h =
    let (cost, e, h0) = after_required _ _ _ h in
    let (debit, d, h1) = after_required _ _ _ h0 in
    let fits : IsInt64 cost.units = notional-IsInt64 _ _ _ _ e in
    let sum = add-exact cost entry_fee debit fits ff d in
    let nonneg : pos 0 ≤ℤ cost.units =
      notional-nonneg _ _ _ _ pf qf (omega arith) (omega arith) e in
    subst (IsBought entry_fee) (returned _ _ h1) (record {
      quantity_fits = qf;
      quantity_pos = qp;
      cost_fits = fits;
      cost_nonneg = nonneg;
      debit_fits = sum.1;
      debit_exact = sum.0;
    })

size_by_budget-IsBought :
    (at_price : Price) (entry_fee budget : Money) (s : Sizing)
    → IsInt64 at_price.units
    → pos 0 <ℤ at_price.units
    → IsInt64 entry_fee.units
    → size_by_budget at_price entry_fee budget ≡ returns s
    → IsBought entry_fee s
unfolding size_by_budget
size_by_budget-IsBought at_price entry_fee budget s pf pp ff h =
    let (net, _, h0) =
      after_or_throw logic_error (positive_value (subtract budget entry_fee)) _ _ h in
    let (q, e, h1) =
      after_or_throw logic_error (positive_value (quantity_for_notional net at_price toward_zero)) _
        _ h0 in
    let (f, qp) = positive_value-some _ q e in
    cost_of-IsBought at_price entry_fee q s pf pp ff
      (quantity_for_notional-IsInt64 net at_price toward_zero q f) qp h1

size_explicitly-IsBought :
    (at_price : Price) (entry_fee budget : Money) (explicit : Option Quantity) (s : Sizing)
    → IsInt64 at_price.units
    → pos 0 <ℤ at_price.units
    → IsInt64 entry_fee.units
    → ((q : Quantity) → explicit ≡ some q → IsInt64 q.units)
    → size_explicitly at_price entry_fee budget explicit ≡ returns s
    → IsBought entry_fee s
unfolding size_explicitly
size_explicitly-IsBought at_price entry_fee budget explicit s pf pp ff xf h =
    let (q, e, h0) = after_or_throw invalid_argument (positive_value explicit) _ _ h in
    let (f, qp) = positive_value-some _ q e in
    let (sizing, c, h1) = >>=-returns _ _ _ h0 in
    let (_, h2) = after_guard _ _ _ _ h1 in
    cost_of-IsBought at_price entry_fee q s pf pp ff (xf q f) qp (c ∙ h2)

module _ (fp : FloatingPoint) where
  enter_position-IsSound :
      (p p' : Portfolio fp) (symbol : String) (at_price : Price) (timestamp : ℕ) (entry_fee : Money)
      (s : Sizing) (strategy_id : String)
      → IsSound fp p
      → IsInt64 at_price.units
      → pos 0 <ℤ at_price.units
      → IsInt64 entry_fee.units
      → pos 0 ≤ℤ entry_fee.units
      → IsBought entry_fee s
      → enter_position fp p symbol at_price timestamp entry_fee s strategy_id ≡ returns p'
      → IsSound fp p' × (holdings fp p' ≡ holdings fp p)
  unfolding enter_position holdings AllHeld invested
  enter_position-IsSound p p' symbol at_price timestamp entry_fee s strategy_id sound pf pp ff fn
        bought h =
      let (enough, h0) = after_guard (ltb_ℤ p.cash.units s.debit.units) _ _ _ h in
      let (_, h1) = after_guard (not (is_positive s.cost_basis.units)) _ _ _ h0 in
      let (average, _, h2) =
        after_required (average_price s.cost_basis s.quantity nearest_ties_away_from_zero) _ _ h1 in
      let (cash, ec, h3) = after_required _ _ _ h2 in
      let (fees, ef, h4) = after_required _ _ _ h3 in
      let (v, ev, h5) = >>=-returns _ _ _ h4 in
      let (_, h6) = after_guard (p.trade_count == max_int) _ _ _ h5 in
      let debited : (cash.units ≡ p.cash.units -ℤ s.debit.units) × IsInt64 cash.units =
        subtract-exact _ _ cash (sound.cash_fits) (bought.debit_fits) ec in
      let charged : (fees.units ≡ p.total_fees_paid.units +ℤ entry_fee.units) × IsInt64 fees.units =
        add-exact _ _ fees (sound.fees_fit) ff ef in
      let state : PositionState = record {
        quantity = s.quantity;
        average_entry_price = average;
        cost_basis = s.cost_basis;
        last_mark_price = at_price;
        entry_timestamp = timestamp;
        entry_fee = entry_fee;
        strategy_id = strategy_id;
      } in
      let held : IsHeld state = record {
        quantity_fits = bought.quantity_fits;
        quantity_pos = bought.quantity_pos;
        cost_fits = bought.cost_fits;
        cost_nonneg = bought.cost_nonneg;
        fee_fits = ff;
        fee_nonneg = fn;
        mark_fits = pf;
        mark_pos = pp;
      } in
      let q : Portfolio fp = record p {
        cash = cash;
        positions = (symbol, state) ∷ p.positions;
        total_fees_paid = fees;
        trade_count = p.trade_count + 1;
      } in
      let paid : pos 0 ≤ℤ cash.units =
        omega
          (int_laws, parts_of_eq _ _ (debited.0), le_of_ltb_ℤ p.cash.units s.debit.units enough) in
      let nonneg : pos 0 ≤ℤ fees.units =
        omega (int_laws, parts_of_eq _ _ (charged.0), fn, sound.fees_nonneg) in
      let kept : holdings fp q ≡ holdings fp p =
        omega (int_laws, parts_of_eq _ _ (debited.0), parts_of_eq _ _ (bought.debit_exact)) in
      subst (λ r. IsSound fp r × (holdings fp r ≡ holdings fp p)) (returned _ _ h6)
        (
          IsSound-commit_valuation fp p q v (debited.1) paid (charged.1) nonneg (held, sound.held)
              ev,
          holdings-commit_valuation fp v q ∙ kept,
        )

  sized :
      CastsInRange fp
      → (at_price : Price) (entry_fee budget : Money) (explicit : fp.Double) (given : Bool)
        (s : Sizing)
      → IsInt64 at_price.units
      → pos 0 <ℤ at_price.units
      → IsInt64 entry_fee.units
      → (if given
          then size_explicitly at_price entry_fee budget (quantity fp explicit reject_unaligned)
          else size_by_budget at_price entry_fee budget)
        ≡ returns s
      → IsBought entry_fee s
  sized laws at_price entry_fee budget explicit true s pf pp ff h =
      size_explicitly-IsBought at_price entry_fee budget _ s pf pp ff
        (normalized-IsInt64 fp laws explicit reject_unaligned) h
  sized laws at_price entry_fee budget explicit false s pf pp ff h =
      size_by_budget-IsBought at_price entry_fee budget s pf pp ff h

  -- An order that is opened leaves the portfolio sound, and moves money from cash to the position.
  pub open_long-IsSound :
      CastsInRange fp
      → (p p' : Portfolio fp) (symbol : String) (net_price : fp.Double) (timestamp : ℕ)
        (fee capital_to_commit explicit_units : fp.Double) (strategy_id : String)
      → IsSound fp p
      → open_long fp p symbol net_price timestamp fee capital_to_commit explicit_units strategy_id
        ≡ returns p'
      → IsSound fp p' × (holdings fp p' ≡ holdings fp p)
  unfolding open_long
  open_long-IsSound laws p p' symbol net_price timestamp fee capital explicit strategy_id sound h =
      let (_, h0) = after_guard (is_empty symbol) _ _ _ h in
      let (_, h1) = after_guard (contains_position symbol p.positions) _ _ _ h0 in
      let (_, h2) =
        after_guard (fp.lt explicit fp.nought || fp.lt capital fp.nought || fp.lt fee fp.nought) _ _
          _ h1 in
      let (at_price, e3, h3) =
        after_or_throw invalid_argument
          (positive_value (price fp net_price nearest_ties_away_from_zero)) _ _ h2 in
      let (entry_fee, e4, h4) =
        after_or_throw invalid_argument
          (nonnegative_value (money fp fee nearest_ties_away_from_zero)) _ _ h3 in
      let (budget, _, h5) = >>=-returns (budget_of fp p.cash capital) _ _ h4 in
      let (s, e6, h6) = >>=-returns _ _ _ h5 in
      let (normal, pp) = positive_value-some _ at_price e3 in
      let pf : IsInt64 at_price.units = normalized-IsInt64 fp laws _ _ at_price normal in
      let (charge, fn) = nonnegative_value-some _ entry_fee e4 in
      let ff : IsInt64 entry_fee.units = normalized-IsInt64 fp laws _ _ entry_fee charge in
      enter_position-IsSound p p' symbol at_price timestamp entry_fee s strategy_id sound pf pp ff
        fn (sized laws at_price entry_fee budget explicit (fp.lt fp.nought explicit) s pf pp ff e6)
        h6
