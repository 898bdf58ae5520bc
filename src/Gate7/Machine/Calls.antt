-- ===== src/Gate7/Machine/Calls.antt =====
-- The public methods of `CTraderGate7Proof` as one step function, and sequences of calls.
use trade_bot.Base.{List, [], ◌∷◌}
use trade_bot.Base.Int.{ℤ}
use trade_bot.Gate7.{
  AccountListEvidence, SymbolsListEvidence, FullSymbolEvidence, SubscriptionEvidence, SpotEvidence,
  Decision, QuoteProof,
}
use trade_bot.Gate7.Machine.{Outcome, terminate, exhaust}
use trade_bot.Gate7.Machine.Accounts.{accept_account_list, accept_account_authentication}
use trade_bot.Gate7.Machine.Symbols.{accept_symbols_list}
use trade_bot.Gate7.Machine.Instruments.{accept_full_symbol}
use trade_bot.Gate7.Machine.Quotes.{accept_subscription, accept_spot}

-- `interrupted` is a call in which an allocation fails, if it comes to one.
pub data Call : Type 0 where
  account_list_response : AccountListEvidence → Call
  account_response : ℤ → Call
  symbols_list_response : SymbolsListEvidence → Call
  full_symbol_response : FullSymbolEvidence → Call
  subscription_response : SubscriptionEvidence → Call
  spot_event : SpotEvidence → Call
  terminal_decision : Decision → Call
  interrupted : Call

unfoldable pub apply : Call → QuoteProof → Outcome
unfolding accept_account_list accept_account_authentication accept_symbols_list accept_full_symbol
    accept_subscription accept_spot terminate exhaust
apply (account_list_response evidence) p = accept_account_list p evidence
apply (account_response id) p = accept_account_authentication p id
apply (symbols_list_response evidence) p = accept_symbols_list p evidence
apply (full_symbol_response evidence) p = accept_full_symbol p evidence
apply (subscription_response evidence) p = accept_subscription p evidence
apply (spot_event evidence) p = accept_spot p evidence
apply (terminal_decision decision) p = terminate p decision
apply interrupted p = exhaust p

unfoldable pub run : List Call → QuoteProof → QuoteProof
unfolding apply
run [] p = p
run (call ∷ calls) p = run calls (apply call p).0
