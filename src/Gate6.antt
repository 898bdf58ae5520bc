-- ===== src/Gate6.antt =====
-- The data of include/CTraderGate6Proof.hpp. A text is the list of its bytes.
pub mod Titles
pub mod Steps
pub mod Calls
pub mod Demo
pub mod Approval
pub mod Backing
pub mod Runs
pub mod Ambiguity
pub mod Diagnostics
mod Tests
use trade_bot.Base.{ℕ, Bool, Option, List, []}
use trade_bot.Gate7.{Bytes}

pub data Gate6Decision : Type 0 where
  ready awaiting_wade_checkpoint ready_for_gate6_b : Gate6Decision
  ready_for_account_authentication account_proof_succeeded cancelled : Gate6Decision
  already_terminal wrong_phase stale_connection_generation correlation_rejected : Gate6Decision
  token_ownership_rejected trading_scope_required live_account_excluded : Gate6Decision
  missing_account_metadata unsafe_broker_metadata invalid_account_identifier : Gate6Decision
  no_eligible_demo_account ambiguous_demo_account wade_selection_rejected : Gate6Decision
  account_authentication_mismatch resource_exhausted : Gate6Decision

pub data Phase : Type 0 where
  gate6_a_ready awaiting_wade gate6_b_ready account_auth_ready complete terminal : Phase

pub record Gate6AccountRecord : Type 0 where
  pub account_id : ℕ
  pub is_live : Option Bool
  pub broker_title_short : Option Bytes

pub record Gate6AccountListEvidence : Type 0 where
  pub current_connection_generation : Bool
  pub correlation_matched : Bool
  pub token_owned : Bool
  pub trading_scope : Bool
  pub accounts : List Gate6AccountRecord

pub record Gate6SafeCandidate : Type 0 where
  pub is_live : Bool
  pub broker_title_short : Bytes

pub record VolatileCandidate : Type 0 where
  pub account_id : ℕ
  pub broker_title_short : Bytes

pub record AccountProof : Type 0 where
  pub phase : Phase
  pub last_decision : Gate6Decision
  pub volatile_candidates : List VolatileCandidate
  pub safe_candidates : List Gate6SafeCandidate
  pub approved_broker_title : Bytes
  pub selected_account_id : ℕ

abbrev pub new_proof : AccountProof
new_proof = record {
  phase = gate6_a_ready;
  last_decision = ready;
  volatile_candidates = [];
  safe_candidates = [];
  approved_broker_title = [];
  selected_account_id = 0;
}
