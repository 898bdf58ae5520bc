-- ===== src/Gate7/Machine/Ended.antt =====
-- What becomes of a quote once it is there.
use trade_bot.Base.{
  Bool, List, Option, [], arith, false, if◌then◌else◌, none, refl, some, true, ℕ, ◌∷◌, ◌≡◌,
}
use trade_bot.Gate7.{
  Phase, QuoteEvidence, QuoteProof, account_authentication, account_list, complete, full_symbol,
  spot, subscription, symbols_list, terminal,
}
use trade_bot.Gate7.Machine.{
  clear_all, clear_sensitive_state, exhaust, finish, initial, is_terminal, terminate,
}
use trade_bot.Gate7.Machine.Accounts.{accept_account_authentication, accept_account_list}
use trade_bot.Gate7.Machine.Symbols.{accept_symbols_list}
use trade_bot.Gate7.Machine.Instruments.{accept_full_symbol}
use trade_bot.Gate7.Machine.Quotes.{accept_spot, accept_subscription}
use trade_bot.Gate7.Machine.Calls.{
  Call, account_list_response, account_response, apply, full_symbol_response, interrupted, run,
  spot_event, subscription_response, symbols_list_response, terminal_decision,
}
use trade_bot.Gate7.Machine.Invariant.{Holds}
use trade_bot.Gate7.Machine.Soundness.{run-IsSound}

-- Some account response is among the calls.
unfoldable pub answers_account : List Call → Bool
answers_account [] = false
answers_account (account_response id ∷ calls) = true
answers_account (call ∷ calls) = answers_account calls

-- An ended proof without a quote.
abbrev IsOver : QuoteProof → Type 0
IsOver p = (p.phase ≡ terminal) × (p.quote_evidence ≡ none)

abbrev IsDone : Option QuoteEvidence → QuoteProof → Type 0
IsDone quote p = (p.phase ≡ complete) × (p.quote_evidence ≡ quote)

apply-IsOver : (call : Call) (p : QuoteProof) → IsOver p → IsOver (apply call p).0
unfolding apply accept_account_list accept_account_authentication accept_symbols_list
    accept_full_symbol accept_subscription accept_spot terminate exhaust finish is_terminal
    clear_all clear_sensitive_state
apply-IsOver (account_list_response e) p (h, k) = (ground arith, ground arith)
apply-IsOver (account_response id) p (h, k) = (ground arith, ground arith)
apply-IsOver (symbols_list_response e) p (h, k) = (ground arith, ground arith)
apply-IsOver (full_symbol_response e) p (h, k) = (ground arith, ground arith)
apply-IsOver (subscription_response e) p (h, k) = (ground arith, ground arith)
apply-IsOver (spot_event e) p (h, k) = (ground arith, ground arith)
apply-IsOver (terminal_decision d) p (h, k) = (ground arith, ground arith)
apply-IsOver interrupted p (h, k) = (ground arith, ground arith)

run-IsOver : (calls : List Call) (p : QuoteProof) → IsOver p → (run calls p).quote_evidence ≡ none
unfolding run
run-IsOver [] p h = h.1
run-IsOver (call ∷ calls) p h = run-IsOver calls (apply call p).0 (apply-IsOver call p h)

run-IsDone :
    (calls : List Call) (p : QuoteProof) (quote : Option QuoteEvidence)
    → IsDone quote p
    → (run calls p).quote_evidence ≡ (if answers_account calls then none else quote)
unfolding run apply accept_account_list accept_account_authentication accept_symbols_list
    accept_full_symbol accept_subscription accept_spot terminate exhaust finish is_terminal
    clear_all clear_sensitive_state answers_account
run-IsDone [] p quote (h, k) = k
run-IsDone (account_response id ∷ calls) p quote (h, k) =
    run-IsOver calls (accept_account_authentication p id).0 (ground arith, ground arith)
run-IsDone (account_list_response e ∷ calls) p quote (h, k) =
    run-IsDone calls (accept_account_list p e).0 quote (ground arith, ground arith)
run-IsDone (symbols_list_response e ∷ calls) p quote (h, k) =
    run-IsDone calls (accept_symbols_list p e).0 quote (ground arith, ground arith)
run-IsDone (full_symbol_response e ∷ calls) p quote (h, k) =
    run-IsDone calls (accept_full_symbol p e).0 quote (ground arith, ground arith)
run-IsDone (subscription_response e ∷ calls) p quote (h, k) =
    run-IsDone calls (accept_subscription p e).0 quote (ground arith, ground arith)
run-IsDone (spot_event e ∷ calls) p quote (h, k) =
    run-IsDone calls (accept_spot p e).0 quote (ground arith, ground arith)
run-IsDone (terminal_decision d ∷ calls) p quote (h, k) =
    run-IsDone calls (terminate p d).0 quote (ground arith, ground arith)
run-IsDone (interrupted ∷ calls) p quote (h, k) =
    run-IsDone calls (exhaust p).0 quote (ground arith, ground arith)

quoted-complete :
    (phase : Phase) (p : QuoteProof) (q : QuoteEvidence)
    → Holds phase p
    → p.quote_evidence ≡ some q
    → phase ≡ complete
unfolding Holds
quoted-complete complete p q s h = refl
quoted-complete account_list p q s h = absurd (ground (arith, s, h))
quoted-complete account_authentication p q s h = absurd (ground (arith, s, h))
quoted-complete symbols_list p q s h = absurd (ground (arith, s, h))
quoted-complete full_symbol p q s h = absurd (ground (arith, s.0, h))
quoted-complete subscription p q s h = absurd (ground (arith, s.0, h))
quoted-complete spot p q s h = absurd (ground (arith, s.0, h))
quoted-complete terminal p q s h = absurd (ground (arith, s.0, h))

-- A quote that is there after any calls of a new proof is still there after any further calls, the
-- same one, unless an account response is among these, and then no quote is there.
pub run-SameQuote :
    (calls later : List Call) (generation : ℕ) (q : QuoteEvidence)
    → (run calls (initial generation)).quote_evidence ≡ some q
    → (run later (run calls (initial generation))).quote_evidence
      ≡ (if answers_account later then none else some q)
run-SameQuote calls later generation q h =
    let p : QuoteProof = run calls (initial generation) in
    run-IsDone later p (some q) (quoted-complete p.phase p q (run-IsSound calls generation) h, h)
