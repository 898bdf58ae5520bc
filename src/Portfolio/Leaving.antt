-- ===== src/Portfolio/Leaving.antt =====
-- The accounting of `closePosition` and of `updatePnL`.
use Prim.Native.String.{String}
use trade_bot.Portfolio.Selling.{IsSold, sale_of-whole}
use trade_bot.Base.{Option, arith, false, inl, inr, none, refl, some, subst, true, ◌≡◌}
use trade_bot.Base.Int.{IsInt64, int_laws, parts_of_eq, pos, ℤ, ◌+ℤ◌, ◌-ℤ◌, ◌<ℤ◌, ◌≤ℤ◌}
use trade_bot.Financial.Units.{is_zero, nearest_ties_away_from_zero}
use trade_bot.Financial.Values.{Money, Price, Quantity, average_price, fee, subtract}
use trade_bot.Financial.Values.Exact.{subtract-exact}
use trade_bot.Portfolio.{PositionState, Positions, returns}
use trade_bot.Portfolio.Positions.{find_position}
use trade_bot.Portfolio.Closing.{Sale, after_sale, remainder_of, sale_of}
use trade_bot.Portfolio.Inversion.{after_if, after_required, returned}
use trade_bot.Portfolio.Invariant.{
  AllHeld, AllHeld-erase_position, AllHeld-find_position, AllHeld-set_position, IsHeld, invested,
  invested-erase_position, invested-set_position,
}

-- What is left of a position is held, and has the rest of the cost and of the entry fee.
remainder-IsHeld :
    (prior s : PositionState) (at_price : Price) (q : Quantity) (exit_fee : Money) (sale : Sale)
    (remaining : Quantity) (cost charge : Money)
    → IsHeld prior
    → IsSold prior exit_fee sale
    → IsInt64 remaining.units
    → pos 0 <ℤ remaining.units
    → IsInt64 at_price.units
    → pos 0 <ℤ at_price.units
    → subtract prior.cost_basis sale.allocated_cost ≡ some cost
    → subtract prior.entry_fee sale.allocated_entry_fee ≡ some charge
    → s.quantity ≡ remaining
    → s.cost_basis ≡ cost
    → s.entry_fee ≡ charge
    → s.last_mark_price ≡ at_price
    → IsHeld s
      × (s.cost_basis.units
            +ℤ s.entry_fee.units
            +ℤ (sale.allocated_cost.units +ℤ sale.allocated_entry_fee.units)
          ≡ prior.cost_basis.units +ℤ prior.entry_fee.units)
remainder-IsHeld prior s at_price q exit_fee sale remaining cost charge held sold rf rp pf pp ec ef
      sq sc sf sm =
    let costs : (cost.units ≡ prior.cost_basis.units -ℤ sale.allocated_cost.units)
        × IsInt64 cost.units =
      subtract-exact _ _ _ (held.cost_fits) (sold.cost_fits) ec in
    let fees : (charge.units ≡ prior.entry_fee.units -ℤ sale.allocated_entry_fee.units)
        × IsInt64 charge.units =
      subtract-exact _ _ _ (held.fee_fits) (sold.fee_fits) ef in
    (
      record {
        quantity_fits = rw sq rf;
        quantity_pos = rw sq rp;
        cost_fits = rw sc (costs.1);
        cost_nonneg = rw sc (omega (int_laws, parts_of_eq _ _ (costs.0), sold.cost_within));
        fee_fits = rw sf (fees.1);
        fee_nonneg = rw sf (omega (int_laws, parts_of_eq _ _ (fees.0), sold.fee_within));
        mark_fits = rw sm pf;
        mark_pos = rw sm pp;
      },
      rw (sc, sf) (omega (int_laws, parts_of_eq _ _ (costs.0), parts_of_eq _ _ (fees.0))),
    )

nothing_left : (r p q : ℤ) → r ≡ p -ℤ q → is_zero r ≡ true → q ≡ p
nothing_left r p q e zero_left =
    let none_left : r ≡ pos 0 = ground arith in
    omega (int_laws, parts_of_eq r _ e, parts_of_eq r _ none_left)

something_left : (r p q : ℤ) → r ≡ p -ℤ q → q ≤ℤ p → is_zero r ≡ false → pos 0 <ℤ r
something_left r p q e below some_left =
    let nonneg : pos 0 ≤ℤ r = omega (int_laws, parts_of_eq r _ e) in ground arith

-- The positions after the sale are held, and were paid for with the allocated shares less.
abbrev pub IsSoldFrom : String → Positions → Sale → Option PositionState → Type 0
IsSoldFrom symbol ps sale o =
    AllHeld (after_sale symbol o ps)
    × (invested (after_sale symbol o ps)
          +ℤ (sale.allocated_cost.units +ℤ sale.allocated_entry_fee.units)
        ≡ invested ps)

pub after_sale-exact :
    (symbol : String) (ps : Positions) (prior : PositionState) (at_price : Price) (q : Quantity)
    (exit_fee : Money) (sale : Sale) (o : Option PositionState)
    → AllHeld ps
    → find_position symbol ps ≡ some prior
    → IsInt64 at_price.units
    → pos 0 <ℤ at_price.units
    → pos 0 <ℤ q.units
    → q.units ≤ℤ prior.quantity.units
    → sale_of prior at_price q exit_fee ≡ returns sale
    → IsSold prior exit_fee sale
    → remainder_of prior at_price q sale ≡ returns o
    → IsSoldFrom symbol ps sale o
unfolding remainder_of
after_sale-exact symbol ps prior at_price q exit_fee sale o all there pf pp qp below made sold h =
    let held : IsHeld prior = AllHeld-find_position symbol ps prior there all in
    let qf : IsInt64 q.units = (omega arith, omega (arith, held.quantity_fits)) in
    let (remaining, e0, h0) = after_required (subtract prior.quantity q) _ _ h in
    let rest : (remaining.units ≡ prior.quantity.units -ℤ q.units) × IsInt64 remaining.units =
      subtract-exact _ _ _ (held.quantity_fits) qf e0 in
    elim (after_if (is_zero remaining.units) _ _ _ h0) [
      | inl (zero_left, h1) ↦
          let same : q.units ≡ prior.quantity.units =
            nothing_left remaining.units prior.quantity.units q.units (rest.0) zero_left in
          let (cost, fee) = sale_of-whole prior at_price q exit_fee sale held same made in
          subst (IsSoldFrom symbol ps sale) (returned none o h1) (
            AllHeld-erase_position symbol ps all,
            rw (cost, fee) (invested-erase_position symbol prior ps there),
          )
      | inr (some_left, h1) ↦
          let (cost, e1, h2) =
            after_required (subtract prior.cost_basis sale.allocated_cost) _ _ h1 in
          let (charge, e2, h3) =
            after_required (subtract prior.entry_fee sale.allocated_entry_fee) _ _ h2 in
          let (average, _, h4) =
            after_required (average_price cost remaining nearest_ties_away_from_zero) _ _ h3 in
          let left : PositionState = record prior {
            quantity = remaining;
            cost_basis = cost;
            entry_fee = charge;
            average_entry_price = average;
            last_mark_price = at_price;
          } in
          let positive : pos 0 <ℤ remaining.units =
            something_left remaining.units prior.quantity.units q.units (rest.0) below some_left in
          let (good, split) =
            remainder-IsHeld prior left at_price q exit_fee sale remaining cost charge held sold
              (rest.1) positive pf pp e1 e2 refl refl refl refl in
          subst (IsSoldFrom symbol ps sale) (returned (some left) o h4) (
            AllHeld-set_position symbol left ps good all,
            omega (
              int_laws,
              parts_of_eq _ _ (invested-set_position symbol left prior ps there),
              parts_of_eq _ _ split,
            ),
          )
    ]
