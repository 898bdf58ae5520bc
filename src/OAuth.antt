-- ===== src/OAuth.antt =====
-- The guard of the OAuth callback, src/CTraderOAuthCorrelation.cpp. A time point is the signed number
-- of nanoseconds since the clock's epoch, a text the list of its bytes.
pub mod Query
pub mod Guard
pub mod OneShot
pub mod Comparison
pub mod Parsed
pub mod Matched
pub mod Tests
use trade_bot.Base.{ℕ}
use trade_bot.Base.Int.{ℤ}
use trade_bot.Gate7.{Bytes}

pub record ListenerBinding : Type 0 where
  pub address : Bytes
  pub port : ℕ

pub record CallbackRequest : Type 0 where
  pub remote_address : Bytes
  pub method : Bytes
  pub host : Bytes
  pub path : Bytes
  pub raw_query : Bytes

pub data Decision : Type 0 where
  unarmed_decision armed_decision listener_binding_rejected entropy_unavailable : Decision
  already_terminal callback_before_arming callback_expired cancelled : Decision
  unexpected_remote unexpected_method unexpected_host unexpected_path : Decision
  malformed_query duplicate_parameter authorization_rejected state_missing : Decision
  state_mismatch code_missing correlation_matched_code_discarded : Decision

pub data Phase : Type 0 where
  unarmed armed terminal : Phase

pub record CorrelationGuard : Type 0 where
  pub phase : Phase
  pub last_decision : Decision
  pub armed_at : ℤ
  pub expires_at : ℤ
  pub state : Bytes
