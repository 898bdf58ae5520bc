-- ===== src/Gate7/Machine/Instruments.antt =====
-- The full symbol of src/CTraderGate7Proof.cpp.
use trade_bot.Base.{
  [], Bool, List, Option, false, if◌then◌else◌, none, not, some, suc, true, ℕ, ◌%◌, ◌==◌, ◌||◌, ◌∷◌,
}
use trade_bot.Base.Int.{ℤ, pos, ltb_ℤ, leb_ℤ, eqb_ℤ}
use trade_bot.Broker.{Decimal64, max_scale}
use trade_bot.Financial.Units.{is_positive, is_negative, magnitude}
use trade_bot.Gate7.{
  Bytes, FullSymbol, FullSymbolEvidence, InstrumentSpec, QuoteProof, already_terminal, full_symbol,
  full_symbol_mismatch, invalid_account_identifier, missing_symbol_metadata, subscription,
  subscription_ready, symbol_metadata_rejected, wrong_phase,
}
use trade_bot.Gate7.Names.{bytes_eq, xauusd}
use trade_bot.Gate7.Machine.{
  Outcome, is_terminal, finish, conclude, validate_transport_evidence, contains_id,
}

-- The loop: the last symbol with the identifier and their number.
unfoldable pub match_full : ℤ → List FullSymbol → Option FullSymbol → ℕ → Option FullSymbol × ℕ
match_full id [] match matches = (match, matches)
match_full id (symbol ∷ symbols) match matches =
    let found = match_full id symbols (some symbol) (suc matches) in
    let skipped = match_full id symbols match matches in
    elim (symbol.symbol_id) [
      | none ↦ skipped
      | some other ↦ if eqb_ℤ other id then found else skipped
    ]

-- The six numbers of a full symbol.
pub record Metadata : Type 0 where
  pub digits : ℤ
  pub pip_position : ℤ
  pub min_volume : ℤ
  pub max_volume : ℤ
  pub step_volume : ℤ
  pub lot_size : ℤ

unfoldable pub all_given :
    Option ℤ → Option ℤ → Option ℤ → Option ℤ → Option ℤ → Option ℤ → Option Metadata
all_given (some d) (some p) (some l) (some h) (some s) (some z) = some (record {
  digits = d;
  pip_position = p;
  min_volume = l;
  max_volume = h;
  step_volume = s;
  lot_size = z;
})
all_given d p l h s z = none

unfoldable pub metadata_of : FullSymbol → Option Metadata
unfolding all_given
metadata_of f = all_given f.digits f.pip_position f.min_volume f.max_volume f.step_volume f.lot_size

-- The guard on the numbers, its tests in the source's order.
unfoldable pub metadata_rejected : Metadata → Bool
unfolding magnitude
metadata_rejected m =
    is_negative m.digits
    || is_negative m.pip_position
    || ltb_ℤ (pos max_scale) m.digits
    || ltb_ℤ (pos max_scale) m.pip_position
    || ltb_ℤ m.digits m.pip_position
    || leb_ℤ m.min_volume (pos 0)
    || leb_ℤ m.max_volume (pos 0)
    || leb_ℤ m.step_volume (pos 0)
    || leb_ℤ m.lot_size (pos 0)
    || ltb_ℤ m.max_volume m.min_volume
    || not (magnitude m.min_volume % magnitude m.step_volume == 0)
    || not (magnitude m.max_volume % magnitude m.step_volume == 0)

abbrev pub volume : ℤ → Decimal64
volume units = record { units = units; scale = 2 }

unfoldable pub instrument_of : Bytes → Metadata → InstrumentSpec
unfolding magnitude
instrument_of symbol_name m = record {
  schema_version = 1;
  version = 1;
  canonical_symbol = xauusd;
  execution_alias = symbol_name;
  tick_size = record { units = pos 1; scale = magnitude m.digits };
  contract_size = volume m.lot_size;
  minimum_quantity = volume m.min_volume;
  maximum_quantity = volume m.max_volume;
  quantity_step = volume m.step_volume;
  effective_timestamp_ns = 0;
  is_complete = true;
}

-- What a full symbol says beside its numbers, where it says it.
abbrev pub is_false : Option Bool → Bool
is_false (some false) = true
is_false _ = false

abbrev pub is_true : Option Bool → Bool
is_true (some true) = true
is_true _ = false

abbrev pub is_other : Bytes → Option Bytes → Bool
is_other name (some other) = not (bytes_eq other name)
is_other name none = false

-- The code after the loop.
unfoldable pub settle_full : QuoteProof → Option FullSymbol × ℕ → Outcome
unfolding finish bytes_eq metadata_of metadata_rejected instrument_of
settle_full p (none, matches) = finish p full_symbol_mismatch
settle_full p (some f, matches) =
    if not (matches == 1)
    then finish p full_symbol_mismatch
    else if is_other p.symbol_name f.symbol_name
    then finish p symbol_metadata_rejected
    else if is_false f.enabled
    then finish p symbol_metadata_rejected
    else if is_true f.archived
    then finish p symbol_metadata_rejected
    else elim (metadata_of f) [
      | none ↦ finish p missing_symbol_metadata
      | some m ↦
          if metadata_rejected m
          then finish p symbol_metadata_rejected
          else conclude
              (record p {
                instrument = some (instrument_of p.symbol_name m);
                pip_position = m.pip_position;
                phase = subscription;
              })
              subscription_ready
    ]

unfoldable pub accept_full_symbol : QuoteProof → FullSymbolEvidence → Outcome
unfolding is_terminal finish validate_transport_evidence contains_id match_full settle_full
accept_full_symbol p evidence = if is_terminal p then (p, already_terminal) else elim (p.phase) [
  | full_symbol ↦
      elim (validate_transport_evidence p evidence.connection_generation
        evidence.current_connection_generation evidence.correlation_matched) [
          | some transport ↦ finish p transport
          | none ↦
              if not (eqb_ℤ evidence.account_id p.account_id)
                || not (is_positive evidence.account_id)
              then finish p invalid_account_identifier
              else if contains_id evidence.archived_symbol_ids p.symbol_id
              then finish p symbol_metadata_rejected
              else settle_full p (match_full p.symbol_id evidence.symbols none 0)
        ]
  | _ ↦ finish p wrong_phase
]
