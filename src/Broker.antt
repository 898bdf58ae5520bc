-- ===== src/Broker.antt =====
-- The broker-neutral values and events of include/BrokerAdapterContracts.hpp that the other modules
-- use. Unsigned 64-bit fields are numbers, `std::int64_t` units are integers.
use Prim.Native.String.{String}
use trade_bot.Base.{ℕ, Bool, Option}
use trade_bot.Base.Int.{ℤ}

pub record Decimal64 : Type 0 where
  pub units : ℤ
  pub scale : ℕ

-- `Decimal64::MAX_SCALE`.
abbrev pub max_scale : ℕ
max_scale = 12

pub data OrderSide : Type 0 where
  buy sell : OrderSide

pub data BrokerOrderType : Type 0 where
  market limit stop unknown_type : BrokerOrderType

pub data OrderLifecycleState : Type 0 where
  created risk_checked submitted accepted partially_filled filled cancel_requested canceled
        expired :
      OrderLifecycleState
  rejected timeout unknown reconciled : OrderLifecycleState

pub data FailureCategory : Type 0 where
  no_failure validation rejection transport timed_out authentication rate_limited stale_data :
      FailureCategory
  malformed_event reconciliation_mismatch unknown_failure : FailureCategory

pub data CancelDisposition : Type 0 where
  cancel_accepted cancel_rejected already_filled already_canceled cancel_unknown : CancelDisposition

pub record OrderRequest : Type 0 where
  pub schema_version : ℕ
  pub local_order_id : ℕ
  pub canonical_symbol : String
  pub side : OrderSide
  pub type : BrokerOrderType
  pub quantity : Decimal64
  pub limit_price : Option Decimal64
  pub stop_price : Option Decimal64
  pub reference_price : Option Decimal64
  pub source_id : String
  pub timestamp_ns : ℕ
  pub sequence : ℕ
  pub idempotency_key : String

pub record OrderAcknowledgement : Type 0 where
  pub schema_version : ℕ
  pub local_order_id : ℕ
  pub external_order_id : String
  pub is_accepted : Bool
  pub failure : FailureCategory
  pub reason : String
  pub timestamp_ns : ℕ
  pub sequence : ℕ
  pub event_key : String

pub record ExecutionEvent : Type 0 where
  pub schema_version : ℕ
  pub local_order_id : ℕ
  pub external_order_id : String
  pub cumulative_filled_quantity : Decimal64
  pub remaining_quantity : Decimal64
  pub fill_price : Decimal64
  pub fee : Decimal64
  pub timestamp_ns : ℕ
  pub sequence : ℕ
  pub event_key : String

pub record CancelRequest : Type 0 where
  pub schema_version : ℕ
  pub local_order_id : ℕ
  pub external_order_id : String
  pub timestamp_ns : ℕ
  pub sequence : ℕ
  pub idempotency_key : String

pub record CancelResult : Type 0 where
  pub schema_version : ℕ
  pub local_order_id : ℕ
  pub disposition : CancelDisposition
  pub failure : FailureCategory
  pub reason : String
  pub timestamp_ns : ℕ
  pub sequence : ℕ
  pub event_key : String
