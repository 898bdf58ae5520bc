-- ===== src/Portfolio/Conservation.antt =====
-- Money is neither made nor lost: what a sequence of calls leaves in cash and in positions is what
-- there was, and the realized profit.
use trade_bot.Base.{List, [], arith, inl, inr, refl, subst, ◌∷◌, ◌≡◌}
use trade_bot.Base.Int.{int_laws, parts_of_eq, pos, ◌+ℤ◌}
use trade_bot.Float.{CastsInRange, FloatingPoint}
use trade_bot.Portfolio.{Portfolio, new_portfolio, returns, starting_cash}
use trade_bot.Portfolio.Positions.{find_position}
use trade_bot.Portfolio.Closing.{update_pnl}
use trade_bot.Portfolio.Inversion.{Result-cases, returned}
use trade_bot.Portfolio.Invariant.{AllHeld, invested, total_cost, total_marked}
use trade_bot.Portfolio.Accounting.{IsSound, holdings}
use trade_bot.Portfolio.Buying.{open_long-IsSound}
use trade_bot.Portfolio.Adding.{add_to_long-IsSound}
use trade_bot.Portfolio.Exits.{close_position-IsSound}
use trade_bot.Portfolio.Runs.{
  Call, adds, cancels, closes, evaluates, gain, marks, opens, perform, places, run,
}
use trade_bot.Portfolio.Orders.{evaluate_orders}
use trade_bot.Portfolio.Idle.{
  OnlyQueue, cancel-OnlyQueue, mark_found-IsSound, place-OnlyQueue, queue-IsSound,
}

module _ (fp : FloatingPoint) where
  unchanged :
      (p p' : Portfolio fp)
      → IsSound fp p' × (holdings fp p' ≡ holdings fp p)
      → IsSound fp p' × (holdings fp p' ≡ holdings fp p +ℤ pos 0)
  unchanged p p' (sound, same) = (sound, omega (int_laws, parts_of_eq _ _ same))

  -- A call that returns keeps the portfolio sound, and adds its realized profit to the holdings.
  perform-IsSound :
      CastsInRange fp
      → (p p' : Portfolio fp) (call : Call fp) → IsSound fp p
      → perform fp p call ≡ returns p'
      → IsSound fp p' × (holdings fp p' ≡ holdings fp p +ℤ gain fp p call)
  unfolding perform gain update_pnl
  perform-IsSound laws p p' (opens symbol x timestamp charge capital units name) sound h =
      unchanged p p'
        (open_long-IsSound fp laws p p' symbol x timestamp charge capital units name sound h)
  perform-IsSound laws p p' (adds symbol x added charge capital name) sound h =
      unchanged p p' (add_to_long-IsSound fp laws p p' symbol x added charge capital name sound h)
  perform-IsSound laws p p' (closes symbol x timestamp charge name explicit) sound h =
      close_position-IsSound fp laws p p' symbol x timestamp charge name explicit sound h
  perform-IsSound laws p p' (marks symbol x) sound h =
      unchanged p p'
        (mark_found-IsSound fp laws p p' symbol x (find_position symbol p.positions) sound refl h)
  perform-IsSound laws p p' (places order) sound h =
      queue-IsSound fp p p' sound
        (subst (OnlyQueue fp p) (returned _ p' h) (place-OnlyQueue fp p order))
  perform-IsSound laws p p' (cancels id) sound h =
      queue-IsSound fp p p' sound
        (subst (OnlyQueue fp p) (returned _ p' h) (cancel-OnlyQueue fp p id))
  perform-IsSound laws p p' (evaluates symbol high low close timestamp) sound h =
      queue-IsSound fp p p' sound (
        subst (OnlyQueue fp p) (returned _ p' h) (
          (evaluate_orders fp symbol high low close timestamp p.pending_orders).1,
          p.next_order_id,
          refl,
        ))

  pub run-IsSound :
      CastsInRange fp
      → (p : Portfolio fp) (calls : List (Call fp)) → IsSound fp p
      → IsSound fp (run fp p calls).0
        × (holdings fp (run fp p calls).0 ≡ holdings fp p +ℤ (run fp p calls).1)
  unfolding run
  run-IsSound laws p [] sound = (sound, omega int_laws)
  run-IsSound laws p (call ∷ calls) sound = elim (Result-cases (perform fp p call)) [
    | inl (e, h) ↦
        let rest = run-IsSound laws p calls sound in
        rw h (rest.0, omega (int_laws, parts_of_eq _ _ (rest.1)))
    | inr (p', h) ↦
        let (next, moved) = perform-IsSound laws p p' call sound h in
        let rest = run-IsSound laws p' calls next in
        rw h (rest.0, omega (int_laws, parts_of_eq _ _ (rest.1), parts_of_eq _ _ moved))
  ]

  new_portfolio-IsSound : IsSound fp (new_portfolio fp)
  unfolding AllHeld total_marked total_cost
  new_portfolio-IsSound = record {
    cash_fits = (omega arith, omega arith);
    cash_nonneg = omega arith;
    fees_fit = (omega arith, omega arith);
    fees_nonneg = omega arith;
    held = omega arith;
    valued = record { unrealized = omega int_laws; equity = omega int_laws; peak = omega arith };
  }

  -- Where the casts from `long double` stay in range: after any sequence of calls on a new portfolio
  -- the cash and what was paid for the open positions are the starting cash and the realized profits
  -- of the sequence, to the unit; cash and fees are not negative and fit in 64 bits, every open
  -- position has a positive quantity and a positive mark, and the stored equity and unrealized
  -- profit are those of the cash and the marked positions.
  pub run-Balanced :
      CastsInRange fp
      → (calls : List (Call fp))
      → (holdings fp (run fp (new_portfolio fp) calls).0
          ≡ (starting_cash fp).units +ℤ (run fp (new_portfolio fp) calls).1)
        × IsSound fp (run fp (new_portfolio fp) calls).0
  unfolding holdings invested
  run-Balanced laws calls =
      let (sound, moved) = run-IsSound laws (new_portfolio fp) calls new_portfolio-IsSound in
      (omega (int_laws, parts_of_eq _ _ moved), sound)
