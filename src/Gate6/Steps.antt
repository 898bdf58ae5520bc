-- ===== src/Gate6/Steps.antt =====
-- The methods of `CTraderGate6AccountProof`, each with the new state and the decision that it
-- returns.
use trade_bot.Gate7.{Bytes}
use trade_bot.Base.{
  Bool, List, Option, [], false, if◌then◌else◌, map, none, not, some, true, ℕ, ◌&&◌, ◌==◌, ◌∷◌,
}
use trade_bot.Base.Int.{eqb_ℤ, pos, ℤ}
use trade_bot.Gate6.{
  AccountProof, Gate6AccountListEvidence, Gate6AccountRecord, Gate6Decision, Phase,
  VolatileCandidate, account_auth_ready, account_authentication_mismatch, account_proof_succeeded,
  already_terminal, ambiguous_demo_account, awaiting_wade, awaiting_wade_checkpoint, cancelled,
  complete, correlation_rejected, gate6_a_ready, gate6_b_ready, no_eligible_demo_account,
  ready_for_account_authentication, ready_for_gate6_b, resource_exhausted,
  stale_connection_generation, terminal, token_ownership_rejected, trading_scope_required,
  wade_selection_rejected, wrong_phase,
}
use trade_bot.Gate6.Titles.{
  Scan, collect, contains_title, has_same_titles, is_safe_broker_title, is_usable_account_id,
  match_accounts, rejected, safe_candidate, scanned, sort_candidates,
}
use trade_bot.Financial.Units.{is_positive}

abbrev pub Outcome : Type 0
Outcome = AccountProof × Gate6Decision

abbrev pub is_ended : Phase → Bool
is_ended complete = true
is_ended terminal = true
is_ended phase = false

unfoldable pub is_terminal : AccountProof → Bool
is_terminal p = is_ended p.phase

unfoldable pub clear_account_identifiers : AccountProof → AccountProof
clear_account_identifiers p = record p { volatile_candidates = []; selected_account_id = 0 }

unfoldable pub clear_all : AccountProof → AccountProof
unfolding clear_account_identifiers
clear_all p = record (clear_account_identifiers p) {
  safe_candidates = [];
  approved_broker_title = [];
}

-- The decision is recorded and returned.
unfoldable pub conclude : AccountProof → Gate6Decision → Outcome
conclude p decision = (record p { last_decision = decision }, decision)

unfoldable pub finish : AccountProof → Gate6Decision → Outcome
unfolding clear_all conclude
finish p decision = conclude (record (clear_all p) { phase = terminal }) decision

unfoldable pub validate_evidence : Gate6AccountListEvidence → Option Gate6Decision
validate_evidence evidence =
    if not evidence.current_connection_generation
    then some stale_connection_generation
    else if not evidence.correlation_matched
    then some correlation_rejected
    else if not evidence.token_owned
    then some token_ownership_rejected
    else if not evidence.trading_scope
    then some trading_scope_required
    else none

-- After the loop of `acceptGate6A`.
unfoldable pub settle_candidates : AccountProof → Scan (List VolatileCandidate) → Outcome
unfolding finish conclude sort_candidates has_same_titles
settle_candidates p (rejected decision) = finish p decision
settle_candidates p (scanned []) = finish p no_eligible_demo_account
settle_candidates p (scanned (c ∷ cs)) =
    let sorted = sort_candidates (c ∷ cs) in
    if has_same_titles sorted
    then finish p ambiguous_demo_account
    else conclude
        (record p {
          phase = awaiting_wade;
          volatile_candidates = sorted;
          safe_candidates = map safe_candidate sorted;
        })
        awaiting_wade_checkpoint

abbrev pub collect_valid : AccountProof → List Gate6AccountRecord → Option Gate6Decision → Outcome
collect_valid p accounts (some decision) = finish p decision
collect_valid p accounts none =
    settle_candidates (record (clear_account_identifiers p) { safe_candidates = [] })
      (collect accounts [])

unfoldable pub accept_gate6_a : AccountProof → Gate6AccountListEvidence → Outcome
unfolding is_terminal conclude finish validate_evidence settle_candidates collect
accept_gate6_a p evidence = if is_terminal p then conclude p already_terminal else elim (p.phase) [
  | gate6_a_ready ↦ collect_valid p evidence.accounts (validate_evidence evidence)
  | _ ↦ finish p wrong_phase
]

unfoldable pub confirm_wade_selection : AccountProof → Bytes → Outcome
unfolding is_terminal conclude finish is_safe_broker_title contains_title clear_account_identifiers
confirm_wade_selection p title =
    if is_terminal p then conclude p already_terminal else elim (p.phase) [
      | awaiting_wade ↦
          if not (is_safe_broker_title title)
          then finish p wade_selection_rejected
          else if not (contains_title title p.volatile_candidates)
          then finish p wade_selection_rejected
          else conclude
              (record (clear_account_identifiers p) {
                approved_broker_title = title;
                safe_candidates = [];
                phase = gate6_b_ready;
              })
              ready_for_gate6_b
      | _ ↦ finish p wade_selection_rejected
    ]

-- After the loop of `acceptGate6B`.
unfoldable pub settle_match : AccountProof → Scan (ℕ × ℕ) → Outcome
unfolding finish conclude
settle_match p (rejected decision) = finish p decision
settle_match p (scanned (match, matches)) =
    if matches == 0
    then finish p no_eligible_demo_account
    else if not (matches == 1)
    then finish p ambiguous_demo_account
    else conclude (record p { selected_account_id = match; phase = account_auth_ready })
        ready_for_account_authentication

abbrev pub match_valid : AccountProof → List Gate6AccountRecord → Option Gate6Decision → Outcome
match_valid p accounts (some decision) = finish p decision
match_valid p accounts none = settle_match p (match_accounts p.approved_broker_title accounts 0 0)

abbrev pub is_empty_title : Bytes → Bool
is_empty_title [] = true
is_empty_title (b ∷ bs) = false

unfoldable pub accept_gate6_b : AccountProof → Gate6AccountListEvidence → Outcome
unfolding is_terminal conclude finish validate_evidence settle_match match_accounts
accept_gate6_b p evidence = if is_terminal p then conclude p already_terminal else elim (p.phase) [
  | gate6_b_ready ↦
      if is_empty_title p.approved_broker_title
      then finish p wrong_phase
      else match_valid p evidence.accounts (validate_evidence evidence)
  | _ ↦ finish p wrong_phase
]

unfoldable pub account_id_for_authentication : AccountProof → Option ℕ
unfolding is_usable_account_id
account_id_for_authentication p = elim (p.phase) [
  | account_auth_ready ↦
      if is_usable_account_id p.selected_account_id then some p.selected_account_id else none
  | _ ↦ none
]

-- The comparison of a `std::int64_t` that is positive with a `std::uint64_t`.
unfoldable pub accept_account_authentication : AccountProof → ℤ → Outcome
unfolding is_terminal conclude finish clear_all
accept_account_authentication p response =
    if is_terminal p then conclude p already_terminal else elim (p.phase) [
      | account_auth_ready ↦
          if is_positive response && eqb_ℤ response (pos p.selected_account_id)
          then conclude (record (clear_all p) { phase = complete }) account_proof_succeeded
          else finish p account_authentication_mismatch
      | _ ↦ finish p account_authentication_mismatch
    ]

unfoldable pub cancel : AccountProof → Outcome
unfolding is_terminal conclude finish
cancel p = if is_terminal p then conclude p already_terminal else finish p cancelled

-- The `catch` of `acceptGate6A` and of `confirmWadeSelection`, which only what comes after the test
-- for the end reaches.
unfoldable pub interrupted : AccountProof → Outcome
unfolding is_terminal conclude finish
interrupted p = if is_terminal p then conclude p already_terminal else finish p resource_exhausted
