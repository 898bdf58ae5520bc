-- ===== src/Gate7/Machine.antt =====
-- `CTraderGate7Proof` of src/CTraderGate7Proof.cpp: one function for each of its methods. A method
-- returns the state after it and its decision. A method that can allocate returns at its
-- test for an ended proof before it does; its `catch` clause calls `finish`, which leaves the same
-- state wherever the method was interrupted. A call whose allocation fails is `exhaust`.
pub mod Accounts
pub mod Symbols
pub mod Instruments
pub mod Quotes
pub mod Calls
pub mod Invariant
pub mod Setup
pub mod Soundness
pub mod Selection
pub mod SymbolSelection
pub mod Spelling
pub mod Ended
use trade_bot.Base.{
  ℕ, suc, ◌+◌, Bool, true, false, Option, none, some, List, [], ◌∷◌, ◌||◌, ◌&&◌, not, ltb, leb,
  ◌==◌, if◌then◌else◌,
}
use trade_bot.Base.Int.{ℤ, pos, ltb_ℤ, eqb_ℤ, ◌-ℤ◌}
use trade_bot.Financial.Units.{is_positive, is_negative}
use trade_bot.Gate7.{
  Bytes, Decision, ready, account_authentication_ready, symbol_list_ready, full_symbol_ready,
  subscription_ready, already_terminal, wrong_phase, stale_connection_generation,
  correlation_rejected, token_ownership_rejected, trading_scope_required,
  invalid_account_identifier, no_fibo_demo_account, ambiguous_fibo_demo_account,
  missing_symbol_metadata, no_canonical_xauusd, ambiguous_canonical_xauusd, Phase, account_list,
  account_authentication, symbols_list, full_symbol, complete, terminal, AccountRecord,
  AccountListEvidence, LightSymbol, SymbolsListEvidence, QuoteProof, subscription,
  SubscriptionEvidence, spot, subscription_mismatch, resource_exhausted,
}
use trade_bot.Gate7.Names.{bytes_eq, fibo, is_safe_text, is_canonical_xauusd}
use trade_bot.Gate7.Price.{max_int64}

abbrev pub Outcome : Type 0
Outcome = QuoteProof × Decision

abbrev pub initial : ℕ → QuoteProof
initial generation = record {
  connection_generation = generation;
  phase = account_list;
  last_decision = ready;
  account_id = pos 0;
  symbol_id = pos 0;
  pip_position = pos 0;
  symbol_name = [];
  instrument = none;
  subscription_is_ready = false;
  quote_evidence = none;
}

unfoldable pub is_terminal : QuoteProof → Bool
is_terminal p = elim (p.phase) [ complete ↦ true | terminal ↦ true | _ ↦ false ]

unfoldable pub clear_sensitive_state : QuoteProof → QuoteProof
clear_sensitive_state p = record p {
  account_id = pos 0;
  symbol_id = pos 0;
  pip_position = pos 0;
  symbol_name = [];
  instrument = none;
  subscription_is_ready = false;
}

unfoldable pub clear_all : QuoteProof → QuoteProof
unfolding clear_sensitive_state
clear_all p = record (clear_sensitive_state p) { quote_evidence = none; connection_generation = 0 }

unfoldable pub finish : QuoteProof → Decision → Outcome
unfolding clear_all
finish p decision = (record (clear_all p) { phase = terminal; last_decision = decision }, decision)

-- `lastDecision_ = decision; return lastDecision_`, after the other fields are set.
abbrev pub conclude : QuoteProof → Decision → Outcome
conclude p decision = (record p { last_decision = decision }, decision)

-- Nothing stands for the decision `Ready`.
unfoldable pub validate_transport_evidence : QuoteProof → ℕ → Bool → Bool → Option Decision
validate_transport_evidence p generation current_generation correlation_matched =
    if not current_generation || (generation == 0) || not (generation == p.connection_generation)
    then some stale_connection_generation
    else if not correlation_matched
    then some correlation_rejected
    else none

unfoldable pub is_usable_account_id : ℕ → Bool
is_usable_account_id value = ltb 0 value && leb value max_int64

unfoldable pub is_usable_provider_id : ℤ → Bool
is_usable_provider_id value = is_positive value

unfoldable pub contains_id : List ℤ → ℤ → Bool
contains_id [] id = false
contains_id (value ∷ values) id = eqb_ℤ value id || contains_id values id

-- The public method `terminal`.
unfoldable pub terminate : QuoteProof → Decision → Outcome
unfolding is_terminal finish
terminate p decision = if is_terminal p then conclude p already_terminal else finish p decision

unfoldable pub exhaust : QuoteProof → Outcome
unfolding is_terminal finish
exhaust p = if is_terminal p then (p, already_terminal) else finish p resource_exhausted
