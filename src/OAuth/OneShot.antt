-- ===== src/OAuth/OneShot.antt =====
-- The guard lets a callback through once.
use trade_bot.Base.{List, Option, [], arith, inl, inr, refl, ℕ, ◌+◌, ◌∷◌, ◌≡◌, ◌≤◌, ◌⊎◌}
use trade_bot.Base.Int.{ℤ}
use trade_bot.Gate7.{Bytes}
use trade_bot.OAuth.{
  CallbackRequest, CorrelationGuard, Decision, ListenerBinding, already_terminal,
  correlation_matched_code_discarded, terminal,
}
use trade_bot.OAuth.Guard.{
  arm, arm_with_entropy, cancel, consume, expire_if_due, finish, match_state,
}

pub data Call : Type 0 where
  arming : ListenerBinding → ℤ → Option Bytes → Call
  callback : CallbackRequest → ℤ → Call
  expiry : ℤ → Call
  cancellation : Call

unfoldable pub apply : Call → CorrelationGuard → CorrelationGuard
unfolding arm consume expire_if_due cancel
apply (arming binding now entropy) g = (arm g binding now entropy).0
apply (callback request now) g = (consume g request now).0
apply (expiry now) g = (expire_if_due g now).0
apply cancellation g = (cancel g).0

abbrev pub is_match : Decision → ℕ
is_match d = elim d [ correlation_matched_code_discarded ↦ 1 | _ ↦ 0 ]

-- How many calls end with the matched decision.
unfoldable pub count_matches : List Call → CorrelationGuard → ℕ
unfolding apply
count_matches [] g = 0
count_matches (call ∷ calls) g =
    is_match (apply call g).last_decision + count_matches calls (apply call g)

ended :
    (call : Call) (g : CorrelationGuard)
    → g.phase ≡ terminal
    → ((apply call g).phase ≡ terminal) × ((apply call g).last_decision ≡ already_terminal)
unfolding apply arm consume expire_if_due cancel
ended (arming binding now entropy) g h = (ground arith, ground arith)
ended (callback request now) g h = (ground arith, ground arith)
ended (expiry now) g h = (ground arith, ground arith)
ended cancellation g h = (ground arith, ground arith)

ends :
    (call : Call) (g : CorrelationGuard)
    → ((apply call g).phase ≡ terminal) ⊎ (is_match (apply call g).last_decision ≡ 0)
unfolding apply arm arm_with_entropy consume match_state expire_if_due cancel finish
ends (arming binding now entropy) g = inr (ground arith)
ends (callback request now) g = inl (ground arith)
ends (expiry now) g = inr (ground arith)
ends cancellation g = inr (ground arith)

is_match-le : (d : Decision) → is_match d ≤ 1
is_match-le d = ground arith

none_after :
    (calls : List Call) (g : CorrelationGuard) → g.phase ≡ terminal → count_matches calls g ≡ 0
unfolding count_matches
none_after [] g h = refl
none_after (call ∷ calls) g h =
    let (stays, decided) = ended call g h in
    rw (decided, none_after calls (apply call g) stays) refl

-- Whatever calls are made on a guard, at most one of them ends with the matched decision.
pub count_matches-le : (calls : List Call) (g : CorrelationGuard) → count_matches calls g ≤ 1
unfolding count_matches
count_matches-le [] g = omega arith
count_matches-le (call ∷ calls) g = elim (ends call g) [
  | inl over ↦
      rw (none_after calls (apply call g) over)
        (omega (arith, is_match-le (apply call g).last_decision))
  | inr missed ↦ omega (arith, missed, count_matches-le calls (apply call g))
]
