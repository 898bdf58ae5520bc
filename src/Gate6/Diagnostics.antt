-- ===== src/Gate6/Diagnostics.antt =====
-- The diagnostics and the allow-lists of src/CTraderGate6Proof.cpp.
use Prim.Native.String.{String}
use trade_bot.Base.{
  Bool, List, Option, [], ap, if◌then◌else◌, none, refl, some, some_injective, sym, ℕ, ◌&&◌, ◌==◌,
  ◌||◌, ◌∙◌, ◌∷◌, ◌≡◌,
}
use trade_bot.Gate6.{
  Gate6Decision, account_authentication_mismatch, account_proof_succeeded, already_terminal,
  ambiguous_demo_account, awaiting_wade_checkpoint, cancelled, correlation_rejected,
  invalid_account_identifier, live_account_excluded, missing_account_metadata,
  no_eligible_demo_account, ready, ready_for_account_authentication, ready_for_gate6_b,
  resource_exhausted, stale_connection_generation, token_ownership_rejected, trading_scope_required,
  unsafe_broker_metadata, wade_selection_rejected, wrong_phase,
}
use trade_bot.Base.Text.{str_eq}

unfoldable pub safe_diagnostic : Gate6Decision → String
safe_diagnostic ready = "gate6_ready"
safe_diagnostic awaiting_wade_checkpoint = "gate6_checkpoint_wait"
safe_diagnostic ready_for_gate6_b = "gate6b_ready"
safe_diagnostic ready_for_account_authentication = "gate6_account_auth_ready"
safe_diagnostic account_proof_succeeded = "gate6_account_proof_succeeded"
safe_diagnostic cancelled = "gate6_cancelled"
safe_diagnostic already_terminal = "gate6_terminal_replay_rejected"
safe_diagnostic wrong_phase = "gate6_wrong_phase"
safe_diagnostic stale_connection_generation = "gate6_stale_generation"
safe_diagnostic correlation_rejected = "gate6_correlation_rejected"
safe_diagnostic token_ownership_rejected = "gate6_token_ownership_rejected"
safe_diagnostic trading_scope_required = "gate6_trading_scope_required"
safe_diagnostic live_account_excluded = "gate6_live_account_excluded"
safe_diagnostic missing_account_metadata = "gate6_account_metadata_missing"
safe_diagnostic unsafe_broker_metadata = "gate6_broker_metadata_rejected"
safe_diagnostic invalid_account_identifier = "gate6_account_identifier_rejected"
safe_diagnostic no_eligible_demo_account = "gate6_demo_account_missing"
safe_diagnostic ambiguous_demo_account = "gate6_demo_account_ambiguous"
safe_diagnostic wade_selection_rejected = "gate6_wade_selection_rejected"
safe_diagnostic account_authentication_mismatch = "gate6_account_auth_mismatch"
safe_diagnostic resource_exhausted = "gate6_resource_exhausted"

-- The decision of a diagnostic, by the same table read from right to left.
unfoldable first_match : String → List (String × Gate6Decision) → Option Gate6Decision
first_match text [] = none
first_match text ((name, decision) ∷ rest) =
    if str_eq name text then some decision else first_match text rest

abbrev decisions : List (String × Gate6Decision)
decisions =
    ("gate6_ready", ready)
    ∷ ("gate6_checkpoint_wait", awaiting_wade_checkpoint)
    ∷ ("gate6b_ready", ready_for_gate6_b)
    ∷ ("gate6_account_auth_ready", ready_for_account_authentication)
    ∷ ("gate6_account_proof_succeeded", account_proof_succeeded)
    ∷ ("gate6_cancelled", cancelled)
    ∷ ("gate6_terminal_replay_rejected", already_terminal)
    ∷ ("gate6_wrong_phase", wrong_phase)
    ∷ ("gate6_stale_generation", stale_connection_generation)
    ∷ ("gate6_correlation_rejected", correlation_rejected)
    ∷ ("gate6_token_ownership_rejected", token_ownership_rejected)
    ∷ ("gate6_trading_scope_required", trading_scope_required)
    ∷ ("gate6_live_account_excluded", live_account_excluded)
    ∷ ("gate6_account_metadata_missing", missing_account_metadata)
    ∷ ("gate6_broker_metadata_rejected", unsafe_broker_metadata)
    ∷ ("gate6_account_identifier_rejected", invalid_account_identifier)
    ∷ ("gate6_demo_account_missing", no_eligible_demo_account)
    ∷ ("gate6_demo_account_ambiguous", ambiguous_demo_account)
    ∷ ("gate6_wade_selection_rejected", wade_selection_rejected)
    ∷ ("gate6_account_auth_mismatch", account_authentication_mismatch)
    ∷ ("gate6_resource_exhausted", resource_exhausted)
    ∷ []

first_match-safe_diagnostic :
    (d : Gate6Decision) → first_match (safe_diagnostic d) decisions ≡ some d
unfolding first_match safe_diagnostic
first_match-safe_diagnostic ready = refl
first_match-safe_diagnostic awaiting_wade_checkpoint = refl
first_match-safe_diagnostic ready_for_gate6_b = refl
first_match-safe_diagnostic ready_for_account_authentication = refl
first_match-safe_diagnostic account_proof_succeeded = refl
first_match-safe_diagnostic cancelled = refl
first_match-safe_diagnostic already_terminal = refl
first_match-safe_diagnostic wrong_phase = refl
first_match-safe_diagnostic stale_connection_generation = refl
first_match-safe_diagnostic correlation_rejected = refl
first_match-safe_diagnostic token_ownership_rejected = refl
first_match-safe_diagnostic trading_scope_required = refl
first_match-safe_diagnostic live_account_excluded = refl
first_match-safe_diagnostic missing_account_metadata = refl
first_match-safe_diagnostic unsafe_broker_metadata = refl
first_match-safe_diagnostic invalid_account_identifier = refl
first_match-safe_diagnostic no_eligible_demo_account = refl
first_match-safe_diagnostic ambiguous_demo_account = refl
first_match-safe_diagnostic wade_selection_rejected = refl
first_match-safe_diagnostic account_authentication_mismatch = refl
first_match-safe_diagnostic resource_exhausted = refl

-- Two decisions of the account proof never share a diagnostic.
pub safe_diagnostic_injective :
    (d e : Gate6Decision) → safe_diagnostic d ≡ safe_diagnostic e → d ≡ e
safe_diagnostic_injective d e h = some_injective d e (
    sym (first_match-safe_diagnostic d)
    ∙ ap (λ text. first_match text decisions) h
    ∙ first_match-safe_diagnostic e)

abbrev pub demo_host : String
demo_host = "demo.ctraderapi.com"

abbrev pub demo_port : ℕ
demo_port = 5035

unfoldable pub is_allowed_open_api_endpoint : String → ℕ → Bool
is_allowed_open_api_endpoint host port = str_eq host demo_host && (port == demo_port)

unfoldable pub is_allowed_outbound_payload : ℕ → Bool
is_allowed_outbound_payload payload_type =
    (payload_type == 51)
    || (payload_type == 2100)
    || (payload_type == 2102)
    || (payload_type == 2149)
