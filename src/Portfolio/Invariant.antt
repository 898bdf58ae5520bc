-- ===== src/Portfolio/Invariant.antt =====
-- What holds of a portfolio between two calls.
use Prim.Native.String.{String}
use trade_bot.Base.{
  Bool-cases, Option, arith, [], false, inl, inr, none, some, subst, true, ◌∷◌, ◌≡◌, ◌≤◌,
}
use trade_bot.Base.Int.{IsInt64, int_laws, parts_of_eq, pos, ℤ, ◌+ℤ◌, ◌<ℤ◌, ◌≤ℤ◌}
use trade_bot.Base.Text.{str_eq}
use trade_bot.Financial.Values.{Money, notional}
use trade_bot.Financial.Units.{nearest_ties_away_from_zero}
use trade_bot.Portfolio.{PositionState, Positions}
use trade_bot.Portfolio.Positions.{erase_position, find_position, set_position}

-- A position that is held: a positive quantity at a positive mark, and no negative cost or fee.
pub record IsHeld (s : PositionState) : Type 0 where
  pub quantity_fits : IsInt64 s.quantity.units
  pub quantity_pos : pos 0 <ℤ s.quantity.units
  pub cost_fits : IsInt64 s.cost_basis.units
  pub cost_nonneg : pos 0 ≤ℤ s.cost_basis.units
  pub fee_fits : IsInt64 s.entry_fee.units
  pub fee_nonneg : pos 0 ≤ℤ s.entry_fee.units
  pub mark_fits : IsInt64 s.last_mark_price.units
  pub mark_pos : pos 0 <ℤ s.last_mark_price.units

unfoldable pub AllHeld : Positions → Type 0
AllHeld [] = 0 ≤ 0
AllHeld ((symbol, s) ∷ rest) = IsHeld s × AllHeld rest

-- What was paid for the positions: their cost and their entry fees.
unfoldable pub invested : Positions → ℤ
invested [] = pos 0
invested ((symbol, s) ∷ rest) = s.cost_basis.units +ℤ s.entry_fee.units +ℤ invested rest

unfoldable pub total_cost : Positions → ℤ
total_cost [] = pos 0
total_cost ((symbol, s) ∷ rest) = s.cost_basis.units +ℤ total_cost rest

abbrev units_or_zero : Option Money → ℤ
units_or_zero none = pos 0
units_or_zero (some m) = m.units

-- The value of a position at its mark, and of all positions.
unfoldable pub marked : PositionState → ℤ
marked s = units_or_zero (notional s.last_mark_price s.quantity nearest_ties_away_from_zero)

unfoldable pub total_marked : Positions → ℤ
unfolding marked
total_marked [] = pos 0
total_marked ((symbol, s) ∷ rest) = marked s +ℤ total_marked rest

found :
    (key : String) (t : PositionState) (symbol : String) (s : PositionState) (ps : Positions)
    → str_eq key symbol ≡ true
    → find_position symbol ((key, t) ∷ ps) ≡ some s
    → t ≡ s
unfolding find_position
found key t symbol s ps same h = ground (arith, same, h)

beyond :
    (key : String) (t : PositionState) (symbol : String) (s : PositionState) (ps : Positions)
    → str_eq key symbol ≡ false
    → find_position symbol ((key, t) ∷ ps) ≡ some s
    → find_position symbol ps ≡ some s
unfolding find_position
beyond key t symbol s ps other h = ground (arith, other, h)

pub marked-value :
    (s : PositionState) (m : Money)
    → notional s.last_mark_price s.quantity nearest_ties_away_from_zero ≡ some m
    → marked s ≡ m.units
unfolding marked
marked-value s m h = rw h

pub AllHeld-find_position :
    (symbol : String) (ps : Positions) (s : PositionState)
    → find_position symbol ps ≡ some s
    → AllHeld ps
    → IsHeld s
unfolding find_position AllHeld
AllHeld-find_position symbol [] s h all = cc
AllHeld-find_position symbol ((key, t) ∷ rest) s h all = elim (Bool-cases (str_eq key symbol)) [
  | inl same ↦ subst IsHeld (found key t symbol s rest same h) (all.0)
  | inr other ↦ AllHeld-find_position symbol rest s (beyond key t symbol s rest other h) (all.1)
]

pub AllHeld-set_position :
    (symbol : String) (s : PositionState) (ps : Positions)
    → IsHeld s
    → AllHeld ps
    → AllHeld (set_position symbol s ps)
unfolding set_position AllHeld
AllHeld-set_position symbol s [] h all = all
AllHeld-set_position symbol s ((key, t) ∷ rest) h all = elim (Bool-cases (str_eq key symbol)) [
  | inl same ↦ rw same (h, all.1)
  | inr other ↦ rw other (all.0, AllHeld-set_position symbol s rest h (all.1))
]

pub AllHeld-erase_position :
    (symbol : String) (ps : Positions) → AllHeld ps → AllHeld (erase_position symbol ps)
unfolding erase_position AllHeld
AllHeld-erase_position symbol [] all = all
AllHeld-erase_position symbol ((key, t) ∷ rest) all = elim (Bool-cases (str_eq key symbol)) [
  | inl same ↦ rw same (all.1)
  | inr other ↦ rw other (all.0, AllHeld-erase_position symbol rest (all.1))
]

-- A changed position changes what is invested by the difference of the two.
pub invested-set_position :
    (symbol : String) (s t : PositionState) (ps : Positions)
    → find_position symbol ps ≡ some t
    → invested (set_position symbol s ps) +ℤ (t.cost_basis.units +ℤ t.entry_fee.units)
      ≡ invested ps +ℤ (s.cost_basis.units +ℤ s.entry_fee.units)
unfolding find_position set_position invested
invested-set_position symbol s t [] h = cc
invested-set_position symbol s t ((key, u) ∷ rest) h = elim (Bool-cases (str_eq key symbol)) [
  | inl same ↦ let e = found key u symbol t rest same h in rw (same, e) (omega int_laws)
  | inr other ↦
      let tail = invested-set_position symbol s t rest (beyond key u symbol t rest other h) in
      rw other (omega (int_laws, parts_of_eq _ _ tail))
]

pub invested-erase_position :
    (symbol : String) (t : PositionState) (ps : Positions)
    → find_position symbol ps ≡ some t
    → invested (erase_position symbol ps) +ℤ (t.cost_basis.units +ℤ t.entry_fee.units) ≡ invested ps
unfolding find_position erase_position invested
invested-erase_position symbol t [] h = cc
invested-erase_position symbol t ((key, u) ∷ rest) h = elim (Bool-cases (str_eq key symbol)) [
  | inl same ↦ let e = found key u symbol t rest same h in rw (same, e) (omega int_laws)
  | inr other ↦
      let tail = invested-erase_position symbol t rest (beyond key u symbol t rest other h) in
      rw other (omega (int_laws, parts_of_eq _ _ tail))
]
