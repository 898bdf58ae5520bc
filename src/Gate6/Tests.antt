-- ===== src/Gate6/Tests.antt =====
-- The account proof on concrete calls.
use trade_bot.Gate7.{Bytes, cancelled, complete}
use trade_bot.Base.{Bool, List, [], false, refl, some, true, ℕ, ◌∷◌, ◌≡◌}
use trade_bot.Base.Int.{pos}
use trade_bot.Gate6.{
  Gate6AccountListEvidence, Gate6AccountRecord, Gate6Decision, awaiting_wade_checkpoint, cancelled,
  complete, new_proof,
}
use trade_bot.Gate6.Steps.{accept_gate6_a}
use trade_bot.Gate6.Calls.{Call, apply, authenticate, confirm, gate6_a, gate6_b, run}
use trade_bot.Gate6.Approval.{Approved, Erased}
use trade_bot.Gate6.Runs.{run-Approved}
use trade_bot.Gate6.Diagnostics.{safe_diagnostic_injective}
use trade_bot.Gate6.Ambiguity.{AllUnlike, accept_gate6_a-AllUnlike}

-- "demo" and "fibo".
abbrev demo_title : Bytes
demo_title = 100 ∷ 101 ∷ 109 ∷ 111 ∷ []

abbrev fibo_title : Bytes
fibo_title = 102 ∷ 105 ∷ 98 ∷ 111 ∷ []

abbrev account : ℕ → Bool → Bytes → Gate6AccountRecord
account id live title = record {
  account_id = id;
  is_live = some live;
  broker_title_short = some title;
}

abbrev listed : Gate6AccountListEvidence
listed = record {
  current_connection_generation = true;
  correlation_matched = true;
  token_owned = true;
  trading_scope = true;
  accounts =
      account 11 true fibo_title ∷ account 12 false fibo_title ∷ account 13 false demo_title ∷ [];
}

abbrev calls : List Call
calls = gate6_a listed ∷ confirm fibo_title ∷ gate6_b listed ∷ authenticate (pos 12) ∷ []

completed : (run new_proof calls).phase ≡ complete
unfolding run apply
completed = refl

run-Approved_example :
    Approved calls
    × Erased
        (run new_proof calls).safe_candidates
        (run new_proof calls).volatile_candidates
        (run new_proof calls).approved_broker_title
        (run new_proof calls).selected_account_id
run-Approved_example = run-Approved calls completed

safe_diagnostic_injective_example : ◌≡◌ {A = Gate6Decision} cancelled cancelled
safe_diagnostic_injective_example = safe_diagnostic_injective cancelled cancelled refl

listed_passes : (accept_gate6_a new_proof listed).1 ≡ awaiting_wade_checkpoint
unfolding accept_gate6_a
listed_passes = refl

accept_gate6_a-AllUnlike_example : AllUnlike (accept_gate6_a new_proof listed).0.volatile_candidates
accept_gate6_a-AllUnlike_example = accept_gate6_a-AllUnlike new_proof listed listed_passes
