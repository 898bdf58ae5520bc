-- ===== src/Gate7/Machine/Quotes.antt =====
-- The subscription and the spot event of src/CTraderGate7Proof.cpp.
use trade_bot.Base.{
  Bool, Option, false, if◌then◌else◌, ltb, none, not, some, true, ℕ, ◌&&◌, ◌==◌, ◌||◌,
}
use trade_bot.Base.Int.{ℤ, pos, ltb_ℤ, eqb_ℤ, ◌-ℤ◌}
use trade_bot.Broker.{Decimal64}
use trade_bot.Financial.Units.{is_positive, is_negative, magnitude}
use trade_bot.Gate7.{
  Decision, InstrumentSpec, QuoteEvidence, QuoteProof, SpotEvidence, SubscriptionEvidence,
  TimestampProof, already_terminal, checked_arithmetic_failed, complete, crossed_market,
  incomplete_spot_side, incomplete_spot_timestamp, invalid_spot, quote_proof_succeeded, spot,
  spot_account_mismatch, spot_symbol_mismatch, stale_connection_generation, subscription,
  subscription_mismatch, subscription_ready, timestamp_unit_unproven, wrong_phase,
}
use trade_bot.Gate7.Names.{xauusd}
use trade_bot.Gate7.Price.{max_int64, normalize_spot_price}
use trade_bot.Gate7.Timestamp.{classify_timestamp_detailed}
use trade_bot.Gate7.Machine.{
  Outcome, is_terminal, finish, conclude, validate_transport_evidence, clear_sensitive_state,
}

unfoldable pub symbol_id_for_subscription : QuoteProof → Option ℤ
symbol_id_for_subscription p = elim (p.phase) [
  | subscription ↦ if is_positive p.symbol_id then some p.symbol_id else none
  | _ ↦ none
]

unfoldable pub accept_subscription : QuoteProof → SubscriptionEvidence → Outcome
unfolding is_terminal finish validate_transport_evidence
accept_subscription p evidence = if is_terminal p then (p, already_terminal) else elim (p.phase) [
  | subscription ↦
      elim (validate_transport_evidence p evidence.connection_generation
        evidence.current_connection_generation evidence.correlation_matched) [
          | some transport ↦ finish p transport
          | none ↦
              if eqb_ℤ evidence.account_id p.account_id
                && is_positive evidence.account_id
                && eqb_ℤ evidence.symbol_id p.symbol_id
                && is_positive evidence.symbol_id
                && (evidence.requested_symbol_count == 1)
              then conclude (record p { subscription_is_ready = true; phase = spot })
                  subscription_ready
              else finish p subscription_mismatch
        ]
  | _ ↦ finish p wrong_phase
]

-- A side that is given, but not a positive `std::int64_t`.
abbrev pub invalid_side : Option ℕ → Bool
invalid_side none = false
invalid_side (some raw) = (raw == 0) || ltb max_int64 raw

-- The end of `acceptSpotImpl`, with a proved timestamp.
unfoldable pub quote_of :
    QuoteProof → InstrumentSpec → Decimal64 → Decimal64 → TimestampProof → QuoteEvidence
quote_of p instrument bid ask timestamp = record {
  canonical_symbol = xauusd;
  execution_alias = p.symbol_name;
  instrument = instrument;
  pip_position = p.pip_position;
  bid = bid;
  ask = ask;
  spread = record { units = ask.units -ℤ bid.units; scale = bid.scale };
  timestamp = timestamp;
}

unfoldable pub complete_quote :
    QuoteProof → InstrumentSpec → ℕ → ℕ → Decimal64 → Decimal64 → TimestampProof → Outcome
unfolding finish clear_sensitive_state quote_of
complete_quote p instrument raw_bid raw_ask bid ask timestamp =
    if is_negative (pos raw_ask -ℤ pos raw_bid) || is_negative (ask.units -ℤ bid.units)
    then finish p crossed_market
    else conclude
        (record (clear_sensitive_state p) {
          quote_evidence = some (quote_of p instrument bid ask timestamp);
          phase = complete;
        })
        quote_proof_succeeded

-- From the test of the timestamp's presence on; a given timestamp is not negative here.
unfoldable pub settle_spot :
    QuoteProof → InstrumentSpec → ℕ → ℕ → Decimal64 → Decimal64 → Option ℤ → ℕ → Outcome
unfolding finish classify_timestamp_detailed complete_quote magnitude
settle_spot p instrument raw_bid raw_ask bid ask none receipt = conclude p incomplete_spot_timestamp
settle_spot p instrument raw_bid raw_ask bid ask (some timestamp) receipt =
    let classified = classify_timestamp_detailed (magnitude timestamp) receipt in
    elim (classified.proof) [
      | none ↦ finish p classified.decision
      | some proof ↦ complete_quote p instrument raw_bid raw_ask bid ask proof
    ]

-- Both sides are given.
unfoldable pub price_spot : QuoteProof → ℕ → ℕ → Option ℤ → ℕ → Outcome
unfolding finish normalize_spot_price settle_spot
price_spot p raw_bid raw_ask timestamp receipt =
    if ltb raw_ask raw_bid then finish p crossed_market else elim (p.instrument) [
      | none ↦ finish p wrong_phase
      | some instrument ↦ elim (normalize_spot_price raw_bid instrument.tick_size.scale) [
        | none ↦ finish p checked_arithmetic_failed
        | some bid ↦ elim (normalize_spot_price raw_ask instrument.tick_size.scale) [
          | none ↦ finish p checked_arithmetic_failed
          | some ask ↦
              if ltb_ℤ ask.units bid.units
              then finish p crossed_market
              else settle_spot p instrument raw_bid raw_ask bid ask timestamp receipt
        ]
      ]
    ]

-- A side is missing: a timestamp is still classified.
unfoldable pub incomplete_spot : QuoteProof → Option ℤ → ℕ → Outcome
unfolding finish classify_timestamp_detailed magnitude
incomplete_spot p none receipt = conclude p incomplete_spot_side
incomplete_spot p (some timestamp) receipt =
    let classified = classify_timestamp_detailed (magnitude timestamp) receipt in
    elim (classified.proof) [
      | none ↦ finish p classified.decision
      | some proof ↦ conclude p incomplete_spot_side
    ]

unfoldable pub sides_of_spot : QuoteProof → Option ℕ → Option ℕ → Option ℤ → ℕ → Outcome
unfolding price_spot incomplete_spot
sides_of_spot p (some raw_bid) (some raw_ask) timestamp receipt =
    price_spot p raw_bid raw_ask timestamp receipt
sides_of_spot p bid ask timestamp receipt = incomplete_spot p timestamp receipt

abbrev pub is_before_epoch : Option ℤ → Bool
is_before_epoch none = false
is_before_epoch (some timestamp) = is_negative timestamp

-- The guards after the phase test, in the source's order.
unfoldable pub spot_refusal : QuoteProof → SpotEvidence → Option Decision
spot_refusal p evidence =
    if not evidence.current_connection_generation
      || not (evidence.connection_generation == p.connection_generation)
    then some stale_connection_generation
    else if not evidence.subscription_matched
    then some subscription_mismatch
    else if not (eqb_ℤ evidence.account_id p.account_id) || not (is_positive evidence.account_id)
    then some spot_account_mismatch
    else if not (eqb_ℤ evidence.symbol_id p.symbol_id) || not (is_positive evidence.symbol_id)
    then some spot_symbol_mismatch
    else if invalid_side evidence.bid || invalid_side evidence.ask
    then some invalid_spot
    else if is_before_epoch evidence.timestamp
    then some timestamp_unit_unproven
    else none

unfoldable pub accept_spot : QuoteProof → SpotEvidence → Outcome
unfolding is_terminal finish spot_refusal sides_of_spot
accept_spot p evidence = if is_terminal p then (p, already_terminal) else elim (p.phase) [
  | spot ↦
      if not p.subscription_is_ready then finish p wrong_phase else elim (spot_refusal p evidence) [
        | some decision ↦ finish p decision
        | none ↦
            sides_of_spot p evidence.bid evidence.ask evidence.timestamp
              evidence.receipt_timestamp_ns
      ]
  | _ ↦ finish p wrong_phase
]
