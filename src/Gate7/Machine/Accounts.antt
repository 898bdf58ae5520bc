-- ===== src/Gate7/Machine/Accounts.antt =====
-- The account list and the account authentication of src/CTraderGate7Proof.cpp.
use trade_bot.Base.{
  [], Bool, List, Option, false, if◌then◌else◌, none, not, some, suc, ℕ, ◌&&◌, ◌==◌, ◌∷◌,
}
use trade_bot.Base.Int.{ℤ, pos, eqb_ℤ}
use trade_bot.Financial.Units.{is_positive}
use trade_bot.Gate7.{
  AccountListEvidence, AccountRecord, Bytes, QuoteProof, account_authentication,
  account_authentication_ready, account_list, already_terminal, ambiguous_fibo_demo_account,
  invalid_account_identifier, no_fibo_demo_account, symbol_list_ready, symbols_list,
  token_ownership_rejected, trading_scope_required, wrong_phase,
}
use trade_bot.Gate7.Names.{bytes_eq, fibo, is_safe_text}
use trade_bot.Gate7.Machine.{
  Outcome, is_terminal, finish, conclude, validate_transport_evidence, is_usable_account_id,
}

unfoldable pub fibo_demo : Option ℕ → Option Bool → Option Bytes → Option ℕ
unfolding is_usable_account_id is_safe_text bytes_eq
fibo_demo (some id) (some false) (some title) =
    if is_usable_account_id id && is_safe_text title && bytes_eq title fibo then some id else none
fibo_demo id is_live title = none

-- The account that an entry of the list proposes: the loop's `continue`s passed.
unfoldable pub eligible_account : AccountRecord → Option ℕ
unfolding fibo_demo
eligible_account account = fibo_demo account.account_id account.is_live account.broker_title_short

-- The loop: the last match and the number of matches.
unfoldable pub match_accounts : List AccountRecord → ℕ → ℕ → ℕ × ℕ
unfolding eligible_account
match_accounts [] match matches = (match, matches)
match_accounts (account ∷ accounts) match matches = elim (eligible_account account) [
  | none ↦ match_accounts accounts match matches
  | some id ↦ match_accounts accounts id (suc matches)
]

-- The code after the loop.
unfoldable pub settle_account : QuoteProof → ℕ × ℕ → Outcome
unfolding finish
settle_account p (match, matches) =
    if matches == 0
    then finish p no_fibo_demo_account
    else if not (matches == 1)
    then finish p ambiguous_fibo_demo_account
    else conclude (record p { account_id = pos match; phase = account_authentication })
        account_authentication_ready

unfoldable pub accept_account_list : QuoteProof → AccountListEvidence → Outcome
unfolding is_terminal finish validate_transport_evidence match_accounts settle_account
accept_account_list p evidence = if is_terminal p then (p, already_terminal) else elim (p.phase) [
  | account_list ↦
      elim (validate_transport_evidence p evidence.connection_generation
        evidence.current_connection_generation evidence.correlation_matched) [
          | some transport ↦ finish p transport
          | none ↦
              if not evidence.token_owned
              then finish p token_ownership_rejected
              else if not evidence.trading_scope
              then finish p trading_scope_required
              else settle_account p (match_accounts evidence.accounts 0 0)
        ]
  | _ ↦ finish p wrong_phase
]

unfoldable pub account_id_for_authentication : QuoteProof → Option ℤ
account_id_for_authentication p = elim (p.phase) [
  | account_authentication ↦ if is_positive p.account_id then some p.account_id else none
  | _ ↦ none
]

unfoldable pub accept_account_authentication : QuoteProof → ℤ → Outcome
unfolding finish
accept_account_authentication p response_account_id = elim (p.phase) [
  | account_authentication ↦
      if is_positive response_account_id && eqb_ℤ response_account_id p.account_id
      then conclude (record p { phase = symbols_list }) symbol_list_ready
      else finish p invalid_account_identifier
  | _ ↦ finish p invalid_account_identifier
]
