-- ===== src/Gate7/Tests.antt =====
-- The quote proof at concrete responses.
use trade_bot.Base.{Bool, List, [], arith, false, none, refl, some, true, ℕ, ◌∷◌, ◌≡◌, ◌≤◌}
use trade_bot.Base.Int.{pos, ℤ, ◌-ℤ◌}
use trade_bot.Broker.{Decimal64}
use trade_bot.Gate7.{
  AccountListEvidence, AccountRecord, Bytes, FullSymbolEvidence, QuoteEvidence, QuoteProof,
  SpotEvidence, SubscriptionEvidence, SymbolsListEvidence, complete, milliseconds, symbols_list,
}
use trade_bot.Gate7.Names.{fibo, is_canonical_xauusd, xauusd}
use trade_bot.Gate7.Price.{max_int64, normalize_spot_price}
use trade_bot.Gate7.Price.Rounding.{IsNormalized, normalize_spot_price-IsNormalized}
use trade_bot.Gate7.Timestamp.{classify_timestamp_detailed, multipliers}
use trade_bot.Gate7.Timestamp.Candidates.{
  candidates, classify_timestamp_detailed-sole, is_given, is_ready, sole,
}
use trade_bot.Gate7.Machine.{initial}
use trade_bot.Gate7.Machine.Accounts.{accept_account_list}
use trade_bot.Gate7.Machine.Calls.{
  Call, account_list_response, account_response, full_symbol_response, run, spot_event,
  subscription_response, symbols_list_response,
}
use trade_bot.Gate7.Machine.SymbolSelection.{SelectsSymbol, accept_symbols_list-SelectsSymbol}
use trade_bot.Gate7.Machine.Symbols.{accept_symbols_list}
use trade_bot.Gate7.Machine.Selection.{Selects, accept_account_list-Selects}
use trade_bot.Gate7.Machine.Ended.{answers_account, run-SameQuote}

-- A demo account of the broker, and a live one.
abbrev account : ℕ → Bool → AccountRecord
account id live = record {
  account_id = some id;
  is_live = some live;
  broker_title_short = some fibo;
}

abbrev accounts : AccountListEvidence
accounts = record {
  connection_generation = 3;
  current_connection_generation = true;
  correlation_matched = true;
  token_owned = true;
  trading_scope = true;
  accounts = account 41 true ∷ account 42 false ∷ [];
}

abbrev symbols : SymbolsListEvidence
symbols = record {
  connection_generation = 3;
  current_connection_generation = true;
  correlation_matched = true;
  account_id = pos 42;
  include_archived_symbols = false;
  symbols =
      record {
        symbol_id = some (pos 9);
        symbol_name = some xauusd;
        enabled = some true;
        archived = false;
      }
      ∷ [];
  archived_symbol_ids = [];
}

abbrev full : FullSymbolEvidence
full = record {
  connection_generation = 3;
  current_connection_generation = true;
  correlation_matched = true;
  account_id = pos 42;
  symbols =
      record {
        symbol_id = some (pos 9);
        symbol_name = none;
        enabled = none;
        archived = none;
        digits = some (pos 2);
        pip_position = some (pos 1);
        min_volume = some (pos 100);
        max_volume = some (pos 10_000);
        step_volume = some (pos 100);
        lot_size = some (pos 10_000);
      }
      ∷ [];
  archived_symbol_ids = [];
}

abbrev subscribed : SubscriptionEvidence
subscribed = record {
  connection_generation = 3;
  current_connection_generation = true;
  correlation_matched = true;
  account_id = pos 42;
  symbol_id = pos 9;
  requested_symbol_count = 1;
}

-- Prices in units of 10^-5, a time in milliseconds, one second before its receipt.
abbrev spotted : SpotEvidence
spotted = record {
  connection_generation = 3;
  current_connection_generation = true;
  subscription_matched = true;
  account_id = pos 42;
  symbol_id = pos 9;
  bid = some 265_012_345;
  ask = some 265_045_678;
  timestamp = some (pos 1_700_000_000_000);
  receipt_timestamp_ns = 1_700_000_001_000_000_000;
}

abbrev calls : List Call
calls =
    account_list_response accounts
    ∷ account_response (pos 42)
    ∷ symbols_list_response symbols
    ∷ full_symbol_response full
    ∷ subscription_response subscribed
    ∷ spot_event spotted
    ∷ []

accept_account_list-Selects_example :
    (id : ℕ) × Selects (initial 3) accounts id
    × ((accept_account_list (initial 3) accounts).0.account_id ≡ pos id)
unfolding accept_account_list
accept_account_list-Selects_example = accept_account_list-Selects (initial 3) accounts refl

abbrev completed : QuoteProof
completed = record (initial 3) { phase = complete }

abbrev wire_price : Decimal64
wire_price = record { units = pos 265_012; scale = 2 }

normalize_spot_price-IsNormalized_example :
    (u : ℕ) × (wire_price.units ≡ pos u)
    × (wire_price.scale ≡ 2)
    × (u ≤ max_int64)
    × IsNormalized 265_012_345 2 u
unfolding normalize_spot_price
normalize_spot_price-IsNormalized_example =
    normalize_spot_price-IsNormalized 265_012_345 2 wire_price refl

classify_timestamp_detailed-sole_example :
    let classified = classify_timestamp_detailed 1_700_000_000_000 1_700_000_001_000_000_000 in
    (classified.proof ≡ sole (candidates 1_700_000_000_000 1_700_000_001_000_000_000 multipliers))
    × (is_given classified.proof ≡ is_ready classified.decision)
classify_timestamp_detailed-sole_example =
    classify_timestamp_detailed-sole 1_700_000_000_000 1_700_000_001_000_000_000 (omega arith)

abbrev authenticated : QuoteProof
authenticated = record (initial 3) { phase = symbols_list; account_id = pos 42 }

accept_symbols_list-SelectsSymbol_example :
    (id : ℤ) × (name : Bytes) × SelectsSymbol authenticated symbols id name
    × ((accept_symbols_list authenticated symbols).0.symbol_id ≡ id)
    × ((accept_symbols_list authenticated symbols).0.symbol_name ≡ name)
unfolding accept_symbols_list
accept_symbols_list-SelectsSymbol_example =
    accept_symbols_list-SelectsSymbol authenticated symbols refl

-- The quote that those calls lead to.
abbrev quote : QuoteEvidence
quote = record {
  canonical_symbol = xauusd;
  execution_alias = xauusd;
  instrument = record {
    schema_version = 1;
    version = 1;
    canonical_symbol = xauusd;
    execution_alias = xauusd;
    tick_size = record { units = pos 1; scale = 2 };
    contract_size = record { units = pos 10_000; scale = 2 };
    minimum_quantity = record { units = pos 100; scale = 2 };
    maximum_quantity = record { units = pos 10_000; scale = 2 };
    quantity_step = record { units = pos 100; scale = 2 };
    effective_timestamp_ns = 0;
    is_complete = true;
  };
  pip_position = pos 1;
  bid = record { units = pos 265_012; scale = 2 };
  ask = record { units = pos 265_046; scale = 2 };
  spread = record { units = pos 34; scale = 2 };
  timestamp = record {
    unit = milliseconds;
    timestamp_ns = 1_700_000_000_000_000_000;
    receipt_timestamp_ns = 1_700_000_001_000_000_000;
    freshness_delta_ns = pos 1_000_000_000;
  };
}

quotes : (run calls (initial 3)).quote_evidence ≡ some quote
unfolding run ◌-ℤ◌
quotes = refl

run-SameQuote_example :
    (run (spot_event spotted ∷ []) (run calls (initial 3))).quote_evidence ≡ some quote
unfolding answers_account
run-SameQuote_example = run-SameQuote calls (spot_event spotted ∷ []) 3 quote quotes

-- "xau/USD".
abbrev slashed : Bytes
slashed = 120 ∷ 97 ∷ 117 ∷ 47 ∷ 85 ∷ 83 ∷ 68 ∷ []

slashed_is_canonical : is_canonical_xauusd slashed ≡ true
unfolding is_canonical_xauusd
slashed_is_canonical = refl
