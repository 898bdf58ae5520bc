-- ===== src/Gate6/Calls.antt =====
-- Any sequence of calls on a `CTraderGate6AccountProof`.
use trade_bot.Gate7.{Bytes}
use trade_bot.Base.{List, [], ◌∷◌}
use trade_bot.Base.Int.{ℤ}
use trade_bot.Gate6.{AccountProof, Gate6AccountListEvidence}
use trade_bot.Gate6.Steps.{
  Outcome, accept_account_authentication, accept_gate6_a, accept_gate6_b, cancel,
  confirm_wade_selection, interrupted,
}

pub data Call : Type 0 where
  gate6_a : Gate6AccountListEvidence → Call
  confirm : Bytes → Call
  gate6_b : Gate6AccountListEvidence → Call
  authenticate : ℤ → Call
  cancels : Call
  interrupts : Call

unfoldable pub apply : AccountProof → Call → Outcome
unfolding accept_gate6_a confirm_wade_selection accept_gate6_b accept_account_authentication cancel
    interrupted
apply p (gate6_a evidence) = accept_gate6_a p evidence
apply p (confirm title) = confirm_wade_selection p title
apply p (gate6_b evidence) = accept_gate6_b p evidence
apply p (authenticate response) = accept_account_authentication p response
apply p cancels = cancel p
apply p interrupts = interrupted p

unfoldable pub run : AccountProof → List Call → AccountProof
unfolding apply
run p [] = p
run p (call ∷ calls) = run (apply p call).0 calls
