-- ===== src/Gate7.antt =====
-- The quote proof of the demo account: the data of include/CTraderGate7Proof.hpp. A `std::string` is
-- the list of its bytes, a signed field an integer, an unsigned field a number.
pub mod Names
pub mod Price
pub mod Timestamp
pub mod Machine
pub mod Tests
use trade_bot.Base.{ℕ, Bool, Option, List}
use trade_bot.Base.Int.{ℤ}
use trade_bot.Broker.{Decimal64}

abbrev pub Bytes : Type 0
Bytes = List ℕ

pub data Decision : Type 0 where
  ready account_authentication_ready symbol_list_ready full_symbol_ready subscription_ready :
      Decision
  quote_proof_succeeded already_terminal wrong_phase stale_connection_generation : Decision
  correlation_rejected token_ownership_rejected trading_scope_required : Decision
  invalid_account_identifier no_fibo_demo_account ambiguous_fibo_demo_account : Decision
  missing_symbol_metadata no_canonical_xauusd ambiguous_canonical_xauusd : Decision
  full_symbol_mismatch symbol_metadata_rejected subscription_mismatch : Decision
  incomplete_spot_side incomplete_spot_timestamp spot_account_mismatch : Decision
  spot_symbol_mismatch invalid_spot crossed_market checked_arithmetic_failed : Decision
  timestamp_unit_unproven timestamp_stale timestamp_future provider_error timed_out : Decision
  cancelled malformed_frame resource_exhausted : Decision

pub data TimestampUnit : Type 0 where
  seconds milliseconds microseconds nanoseconds unproven : TimestampUnit

pub data Phase : Type 0 where
  account_list account_authentication symbols_list full_symbol subscription spot : Phase
  complete terminal : Phase

pub record AccountRecord : Type 0 where
  pub account_id : Option ℕ
  pub is_live : Option Bool
  pub broker_title_short : Option Bytes

pub record AccountListEvidence : Type 0 where
  pub connection_generation : ℕ
  pub current_connection_generation : Bool
  pub correlation_matched : Bool
  pub token_owned : Bool
  pub trading_scope : Bool
  pub accounts : List AccountRecord

pub record LightSymbol : Type 0 where
  pub symbol_id : Option ℤ
  pub symbol_name : Option Bytes
  pub enabled : Option Bool
  pub archived : Bool

pub record SymbolsListEvidence : Type 0 where
  pub connection_generation : ℕ
  pub current_connection_generation : Bool
  pub correlation_matched : Bool
  pub account_id : ℤ
  pub include_archived_symbols : Bool
  pub symbols : List LightSymbol
  pub archived_symbol_ids : List ℤ

pub record FullSymbol : Type 0 where
  pub symbol_id : Option ℤ
  pub symbol_name : Option Bytes
  pub enabled : Option Bool
  pub archived : Option Bool
  pub digits : Option ℤ
  pub pip_position : Option ℤ
  pub min_volume : Option ℤ
  pub max_volume : Option ℤ
  pub step_volume : Option ℤ
  pub lot_size : Option ℤ

pub record FullSymbolEvidence : Type 0 where
  pub connection_generation : ℕ
  pub current_connection_generation : Bool
  pub correlation_matched : Bool
  pub account_id : ℤ
  pub symbols : List FullSymbol
  pub archived_symbol_ids : List ℤ

pub record SubscriptionEvidence : Type 0 where
  pub connection_generation : ℕ
  pub current_connection_generation : Bool
  pub correlation_matched : Bool
  pub account_id : ℤ
  pub symbol_id : ℤ
  pub requested_symbol_count : ℕ

pub record SpotEvidence : Type 0 where
  pub connection_generation : ℕ
  pub current_connection_generation : Bool
  pub subscription_matched : Bool
  pub account_id : ℤ
  pub symbol_id : ℤ
  pub bid : Option ℕ
  pub ask : Option ℕ
  pub timestamp : Option ℤ
  pub receipt_timestamp_ns : ℕ

pub record TimestampProof : Type 0 where
  pub unit : TimestampUnit
  pub timestamp_ns : ℕ
  pub receipt_timestamp_ns : ℕ
  pub freshness_delta_ns : ℤ

pub record TimestampClassification : Type 0 where
  pub decision : Decision
  pub proof : Option TimestampProof

-- `InstrumentSpec` of include/BrokerAdapterContracts.hpp.
pub record InstrumentSpec : Type 0 where
  pub schema_version : ℕ
  pub version : ℕ
  pub canonical_symbol : Bytes
  pub execution_alias : Bytes
  pub tick_size : Decimal64
  pub contract_size : Decimal64
  pub minimum_quantity : Decimal64
  pub maximum_quantity : Decimal64
  pub quantity_step : Decimal64
  pub effective_timestamp_ns : ℕ
  pub is_complete : Bool

pub record QuoteEvidence : Type 0 where
  pub canonical_symbol : Bytes
  pub execution_alias : Bytes
  pub instrument : InstrumentSpec
  pub pip_position : ℤ
  pub bid : Decimal64
  pub ask : Decimal64
  pub spread : Decimal64
  pub timestamp : TimestampProof

pub record QuoteProof : Type 0 where
  pub connection_generation : ℕ
  pub phase : Phase
  pub last_decision : Decision
  pub account_id : ℤ
  pub symbol_id : ℤ
  pub pip_position : ℤ
  pub symbol_name : Bytes
  pub instrument : Option InstrumentSpec
  pub subscription_is_ready : Bool
  pub quote_evidence : Option QuoteEvidence
