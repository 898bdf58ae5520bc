-- ===== src/Gate7/Machine/Soundness.antt =====
-- A spot event, and so every sequence of calls, keeps the invariant.
use trade_bot.Base.{
  List, Option, Option-cases, [], arith, false, if-cases, inl, inr, none, refl, some, sym, ℕ, ◌∷◌,
  ◌≡◌,
}
use trade_bot.Base.Int.{ltb_ℤ, ℤ, ◌≤ℤ◌}
use trade_bot.Broker.{Decimal64}
use trade_bot.Financial.Units.{magnitude}
use trade_bot.Gate7.{
  Bytes, InstrumentSpec, QuoteProof, SpotEvidence, TimestampProof, resource_exhausted, spot,
}
use trade_bot.Gate7.Price.{normalize_spot_price}
use trade_bot.Gate7.Timestamp.{classify_timestamp_detailed}
use trade_bot.Gate7.Machine.{
  Outcome, clear_all, clear_sensitive_state, exhaust, finish, initial, is_terminal,
}
use trade_bot.Gate7.Machine.Quotes.{
  accept_spot, complete_quote, incomplete_spot, price_spot, quote_of, settle_spot, sides_of_spot,
}
use trade_bot.Gate7.Machine.Calls.{
  Call, account_list_response, account_response, apply, full_symbol_response, interrupted, run,
  spot_event, subscription_response, symbols_list_response, terminal_decision,
}
use trade_bot.Gate7.Machine.Invariant.{
  Holds, IsSound, IsTradable, Quoted, Specified, Unquoted, finish-IsSound,
}
use trade_bot.Gate7.Machine.Setup.{
  account-IsSound, accounts-IsSound, full-IsSound, subscription-IsSound, symbols-IsSound,
  terminate-IsSound,
}

abbrev IsPriced : ℕ → Decimal64 → Type 0
IsPriced digits d = (raw : ℕ) × (normalize_spot_price raw digits ≡ some d)

abbrev IsTimely : TimestampProof → Type 0
IsTimely t = (raw receipt : ℕ) × ((classify_timestamp_detailed raw receipt).proof ≡ some t)

quote-Quoted :
    (p : QuoteProof) (i : InstrumentSpec) (bid ask : Decimal64) (t : TimestampProof)
    → p.symbol_name ≡ i.execution_alias
    → IsTradable i
    → IsPriced i.tick_size.scale bid
    → IsPriced i.tick_size.scale ask
    → bid.units ≤ℤ ask.units
    → IsTimely t
    → Quoted (some (quote_of p i bid ask t))
unfolding Quoted quote_of
quote-Quoted p i bid ask t named tradable bid_wire ask_wire ordered timely = (
  quote_of p i bid ask t,
  refl,
  record {
    canonical = refl;
    alias = named;
    tradable = tradable;
    bid_wire = bid_wire;
    ask_wire = ask_wire;
    ordered = ordered;
    spread = refl;
    timely = timely;
  },
)

settle_spot-IsSound :
    (p : QuoteProof) (i : InstrumentSpec) (raw_bid raw_ask : ℕ) (bid ask : Decimal64)
    (timestamp : Option ℤ) (receipt : ℕ)
    → Holds spot p
    → p.phase ≡ spot
    → ((t : TimestampProof) → IsTimely t → Quoted (some (quote_of p i bid ask t)))
    → IsSound (settle_spot p i raw_bid raw_ask bid ask timestamp receipt).0
unfolding settle_spot complete_quote finish clear_all clear_sensitive_state Holds
settle_spot-IsSound p i raw_bid raw_ask bid ask none receipt h here quoted = rw here h
settle_spot-IsSound p i raw_bid raw_ask bid ask (some s) receipt h here quoted =
    elim (Option-cases ((classify_timestamp_detailed (magnitude s) receipt).proof)) [
      | inl unproved ↦ ground (arith, unproved)
      | inr (t, proved) ↦ ground (arith, proved, quoted t (magnitude s, receipt, proved))
    ]

specification :
    (instrument : Option InstrumentSpec) (name : Bytes)
    → Specified instrument name
    → (i : InstrumentSpec) × (instrument ≡ some i) × (i.execution_alias ≡ name) × IsTradable i
unfolding Specified
specification instrument name h = h

price_spot-IsSound :
    (p : QuoteProof) (raw_bid raw_ask : ℕ) (timestamp : Option ℤ) (receipt : ℕ)
    → Holds spot p
    → p.phase ≡ spot
    → IsSound (price_spot p raw_bid raw_ask timestamp receipt).0
unfolding price_spot finish clear_all clear_sensitive_state Holds
price_spot-IsSound p raw_bid raw_ask timestamp receipt h here =
    let (i, given, named, tradable) = specification p.instrument p.symbol_name h.1 in
    elim (Option-cases (normalize_spot_price raw_bid i.tick_size.scale)) [
      | inl e ↦ ground (arith, given, e)
      | inr (bid, e) ↦ elim (Option-cases (normalize_spot_price raw_ask i.tick_size.scale)) [
        | inl f ↦ ground (arith, given, e, f)
        | inr (ask, f) ↦
            let settled : ltb_ℤ ask.units bid.units ≡ false
                → IsSound (settle_spot p i raw_bid raw_ask bid ask timestamp receipt).0 =
              λ o. settle_spot-IsSound p i raw_bid raw_ask bid ask timestamp receipt h here (λ t.
                quote-Quoted p i bid ask t (sym named) tradable (raw_bid, e) (raw_ask, f)
                  (ground arith)) in
            ground (arith, given, e, f, settled)
      ]
    ]

incomplete_spot-IsSound :
    (p : QuoteProof) (timestamp : Option ℤ) (receipt : ℕ)
    → Holds spot p
    → p.phase ≡ spot
    → IsSound (incomplete_spot p timestamp receipt).0
unfolding incomplete_spot finish clear_all clear_sensitive_state Holds
incomplete_spot-IsSound p none receipt h here = rw here h
incomplete_spot-IsSound p (some s) receipt h here =
    elim (Option-cases ((classify_timestamp_detailed (magnitude s) receipt).proof)) [
      | inl unproved ↦ rw (unproved, incomplete_spot) (refl, (refl, refl, refl, refl, refl))
      | inr (t, proved) ↦ rw (proved, incomplete_spot, here) h
    ]

sides-IsSound :
    (p : QuoteProof) (bid ask : Option ℕ) (timestamp : Option ℤ) (receipt : ℕ)
    → Holds spot p
    → p.phase ≡ spot
    → IsSound (sides_of_spot p bid ask timestamp receipt).0
unfolding sides_of_spot
sides-IsSound p (some b) (some a) timestamp receipt h here =
    price_spot-IsSound p b a timestamp receipt h here
sides-IsSound p bid ask timestamp receipt h here =
    incomplete_spot-IsSound p timestamp receipt h here

spot-IsSound : (p : QuoteProof) (e : SpotEvidence) → IsSound p → IsSound (accept_spot p e).0
unfolding accept_spot finish clear_all clear_sensitive_state Holds is_terminal
spot-IsSound p e s =
    let settled : Unquoted p
        → Specified p.instrument p.symbol_name
        → p.phase ≡ spot
        → IsSound (sides_of_spot p e.bid e.ask e.timestamp e.receipt_timestamp_ns).0 =
      λ u i. sides-IsSound p e.bid e.ask e.timestamp e.receipt_timestamp_ns (u, i) in
    ground (arith, settled)

apply-IsSound : (call : Call) (p : QuoteProof) → IsSound p → IsSound (apply call p).0
unfolding apply exhaust
apply-IsSound (account_list_response e) p s = accounts-IsSound p e s
apply-IsSound (account_response id) p s = account-IsSound p id s
apply-IsSound (symbols_list_response e) p s = symbols-IsSound p e s
apply-IsSound (full_symbol_response e) p s = full-IsSound p e s
apply-IsSound (subscription_response e) p s = subscription-IsSound p e s
apply-IsSound (spot_event e) p s = spot-IsSound p e s
apply-IsSound (terminal_decision d) p s = terminate-IsSound p d s
apply-IsSound interrupted p s =
    if-cases (λ (o : Outcome). IsSound o.0) (is_terminal p) _ _ (λ ended. s)
      (λ open_still. finish-IsSound p resource_exhausted)

run_keeps : (calls : List Call) (p : QuoteProof) → IsSound p → IsSound (run calls p)
unfolding run
run_keeps [] p s = s
run_keeps (call ∷ calls) p s = run_keeps calls (apply call p).0 (apply-IsSound call p s)

pub run-IsSound : (calls : List Call) (generation : ℕ) → IsSound (run calls (initial generation))
unfolding Holds
run-IsSound calls generation = run_keeps calls (initial generation) refl
