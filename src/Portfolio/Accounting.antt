-- ===== src/Portfolio/Accounting.antt =====
-- The valuation of the positions, and what a method's new fields make of a portfolio.
use trade_bot.Base.{[], ap, arith, refl, sym, ◌∷◌, ◌≡◌}
use trade_bot.Base.Int.{IsInt64, int_laws, parts_of_eq, pos, ℤ, ◌+ℤ◌, ◌-ℤ◌, ◌≤ℤ◌}
use trade_bot.Financial.Values.{Money, of_units}
use trade_bot.Financial.Values.Exact.{add-exact, notional-IsInt64, subtract-exact}
use trade_bot.Portfolio.{Portfolio, Positions, Valuation, returns}
use trade_bot.Portfolio.Inversion.{>>=-returns, after_required, returned}
use trade_bot.Portfolio.Invariant.{
  AllHeld, invested, marked, marked-value, total_cost, total_marked,
}
use trade_bot.Portfolio.Marking.{commit_valuation, mark_positions, value_state}
use trade_bot.Float.{FloatingPoint}

-- The sums of the loop are the exact sums over the positions.
pub mark_positions-exact :
    (ps : Positions) (m u m' u' : Money)
    → AllHeld ps
    → IsInt64 m.units
    → IsInt64 u.units
    → mark_positions ps m u ≡ returns (m', u')
    → (m'.units ≡ m.units +ℤ total_marked ps)
      × (u'.units ≡ u.units +ℤ total_marked ps -ℤ total_cost ps)
      × IsInt64 m'.units
      × IsInt64 u'.units
unfolding mark_positions AllHeld total_marked total_cost
mark_positions-exact [] m u m' u' held hm hu h =
    let same : (m, u) ≡ (m', u') = returned _ _ h in
    let em : m ≡ m' = ap (λ x. x.0) same in
    let eu : u ≡ u' = ap (λ x. x.1) same in
    rw (sym em, sym eu) (omega int_laws, omega int_laws, hm, hu)
mark_positions-exact ((symbol, s) ∷ rest) m u m' u' held hm hu h =
    let (value, e0, h0) = after_required _ _ _ h in
    let (m1, e1, h1) = after_required _ _ _ h0 in
    let (pnl, e2, h2) = after_required _ _ _ h1 in
    let (u1, e3, h3) = after_required _ _ _ h2 in
    let fits : IsInt64 value.units = notional-IsInt64 _ _ _ _ e0 in
    let sum = add-exact _ _ _ hm fits e1 in
    let profit = subtract-exact _ _ _ fits (held.0.cost_fits) e2 in
    let total = add-exact _ _ _ hu (profit.1) e3 in
    let (em, eu, fm, fu) = mark_positions-exact rest m1 u1 m' u' (held.1) (sum.1) (total.1) h3 in
    let now : marked s ≡ value.units = marked-value s value e0 in
    (
      omega (int_laws, parts_of_eq _ _ em, parts_of_eq _ _ (sum.0), parts_of_eq _ _ now),
      omega (
        int_laws,
        parts_of_eq _ _ eu,
        parts_of_eq _ _ (total.0),
        parts_of_eq _ _ (profit.0),
        parts_of_eq _ _ now,
      ),
      fm,
      fu,
    )

-- What a portfolio keeps between two calls: amounts that fit in 64 bits, cash and fees that are not
-- negative, positions that are held, and a valuation of them.
pub record IsValued (fp : FloatingPoint) (p : Portfolio fp) : Type 0 where
  pub unrealized : p.unrealized_pnl.units ≡ total_marked p.positions -ℤ total_cost p.positions
  pub equity : p.total_equity.units ≡ p.cash.units +ℤ total_marked p.positions
  pub peak : p.total_equity.units ≤ℤ p.max_equity.units

pub record IsSound (fp : FloatingPoint) (p : Portfolio fp) : Type 0 where
  pub cash_fits : IsInt64 p.cash.units
  pub cash_nonneg : pos 0 ≤ℤ p.cash.units
  pub fees_fit : IsInt64 p.total_fees_paid.units
  pub fees_nonneg : pos 0 ≤ℤ p.total_fees_paid.units
  pub held : AllHeld p.positions
  pub valued : IsValued fp p

module _ (fp : FloatingPoint) where
  -- Cash and what was paid for the positions, together.
  unfoldable pub holdings : Portfolio fp → ℤ
  unfolding invested
  holdings p = p.cash.units +ℤ invested p.positions

  -- Of held positions and a cash amount of 64 bits, a valuation that is returned has exactly the sum
  -- of the marked values less the costs as its unrealized profit, the cash and the marked values as
  -- its equity, and a peak that is no less than the equity.
  pub value_state-exact :
      (p : Portfolio fp) (cash : Money) (ps : Positions) (v : Valuation fp)
      → AllHeld ps
      → IsInt64 cash.units
      → value_state fp p cash ps ≡ returns v
      → (v.unrealized_pnl.units ≡ total_marked ps -ℤ total_cost ps)
        × (v.total_equity.units ≡ cash.units +ℤ total_marked ps)
        × (v.total_equity.units ≤ℤ v.max_equity.units)
  unfolding value_state
  value_state-exact p cash ps v held fits h =
      let ((m, u), e, h0) =
        >>=-returns (mark_positions ps (of_units (pos 0)) (of_units (pos 0))) _ v h in
      let (equity, e1, h1) = after_required _ _ _ h0 in
      let (em, eu, fm, fu) =
        mark_positions-exact ps (of_units (pos 0)) (of_units (pos 0)) m u held (omega arith)
          (omega arith) e in
      let sum = add-exact _ _ _ fits fm e1 in
      rw (sym (returned _ _ h1)) (
        omega (int_laws, parts_of_eq _ _ eu),
        omega (int_laws, parts_of_eq _ _ (sum.0), parts_of_eq _ _ em),
        ground arith,
      )

  pub IsSound-commit_valuation :
      (p q : Portfolio fp) (v : Valuation fp)
      → IsInt64 q.cash.units
      → pos 0 ≤ℤ q.cash.units
      → IsInt64 q.total_fees_paid.units
      → pos 0 ≤ℤ q.total_fees_paid.units
      → AllHeld q.positions
      → value_state fp p q.cash q.positions ≡ returns v
      → IsSound fp (commit_valuation fp v q)
  unfolding commit_valuation
  IsSound-commit_valuation p q v cf cn ff fn held h =
      let (unrealized, equity, peak) = value_state-exact p q.cash q.positions v held cf h in
      record {
        cash_fits = cf;
        cash_nonneg = cn;
        fees_fit = ff;
        fees_nonneg = fn;
        held = held;
        valued = record { unrealized = unrealized; equity = equity; peak = peak };
      }

  pub holdings-commit_valuation :
      (v : Valuation fp) (q : Portfolio fp) → holdings (commit_valuation fp v q) ≡ holdings q
  unfolding holdings commit_valuation
  holdings-commit_valuation v q = refl
