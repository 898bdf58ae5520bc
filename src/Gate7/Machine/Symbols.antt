-- ===== src/Gate7/Machine/Symbols.antt =====
-- The symbol list of src/CTraderGate7Proof.cpp.
use trade_bot.Base.{
  [], Bool, List, Option, false, if◌then◌else◌, none, not, some, suc, true, ℕ, ◌&&◌, ◌==◌, ◌||◌,
  ◌∷◌,
}
use trade_bot.Base.Int.{ℤ, eqb_ℤ}
use trade_bot.Financial.Units.{is_positive}
use trade_bot.Gate7.{
  Bytes, LightSymbol, QuoteProof, SymbolsListEvidence, already_terminal, ambiguous_canonical_xauusd,
  full_symbol, full_symbol_ready, invalid_account_identifier, missing_symbol_metadata,
  no_canonical_xauusd, symbols_list, wrong_phase,
}
use trade_bot.Gate7.Names.{is_canonical_xauusd}
use trade_bot.Gate7.Machine.{
  Outcome, is_terminal, finish, conclude, validate_transport_evidence, is_usable_provider_id,
  contains_id,
}

unfoldable pub canonical_symbol :
    List ℤ → Bool → Option ℤ → Option Bytes → Option Bool → Option (ℤ × Bytes)
unfolding is_usable_provider_id contains_id is_canonical_xauusd
canonical_symbol archived_ids archived (some id) (some name) (some true) =
    if is_usable_provider_id id
      && not archived
      && not (contains_id archived_ids id)
      && is_canonical_xauusd name
    then some (id, name)
    else none
canonical_symbol archived_ids archived id name enabled = none

-- The candidate that an entry of the list proposes: its identifier and its name.
unfoldable pub eligible_symbol : List ℤ → LightSymbol → Option (ℤ × Bytes)
unfolding canonical_symbol
eligible_symbol archived_ids symbol =
    canonical_symbol archived_ids symbol.archived symbol.symbol_id symbol.symbol_name symbol.enabled

-- The first loop keeps the last candidate's name and counts.
unfoldable pub match_symbols : List ℤ → List LightSymbol → Bytes → ℕ → Bytes × ℕ
unfolding eligible_symbol
match_symbols archived_ids [] name matches = (name, matches)
match_symbols archived_ids (symbol ∷ symbols) name matches =
    elim (eligible_symbol archived_ids symbol) [
      | none ↦ match_symbols archived_ids symbols name matches
      | some (id, found) ↦ match_symbols archived_ids symbols found (suc matches)
    ]

-- The second loop stops at the first candidate.
unfoldable pub first_symbol : List ℤ → List LightSymbol → Option (ℤ × Bytes)
unfolding eligible_symbol
first_symbol archived_ids [] = none
first_symbol archived_ids (symbol ∷ symbols) = elim (eligible_symbol archived_ids symbol) [
  | none ↦ first_symbol archived_ids symbols
  | some found ↦ some found
]

abbrev pub is_nonempty : Bytes → Bool
is_nonempty [] = false
is_nonempty (b ∷ bs) = true

-- The state after the second loop.
abbrev pub with_symbol : QuoteProof → Option (ℤ × Bytes) → QuoteProof
with_symbol p none = p
with_symbol p (some (id, name)) = record p { symbol_id = id; symbol_name = name }

-- The code after the first loop.
unfoldable pub settle_symbol : QuoteProof → Bytes × ℕ → Option (ℤ × Bytes) → Outcome
unfolding finish
settle_symbol p (name, matches) found =
    let q : QuoteProof = with_symbol p found in
    if matches == 0
    then finish p no_canonical_xauusd
    else if not (matches == 1)
    then finish p ambiguous_canonical_xauusd
    else if not (is_positive q.symbol_id) || not (is_nonempty name)
    then finish q missing_symbol_metadata
    else conclude (record q { phase = full_symbol }) full_symbol_ready

unfoldable pub accept_symbols_list : QuoteProof → SymbolsListEvidence → Outcome
unfolding is_terminal finish validate_transport_evidence match_symbols first_symbol settle_symbol
accept_symbols_list p evidence = if is_terminal p then (p, already_terminal) else elim (p.phase) [
  | symbols_list ↦
      elim (validate_transport_evidence p evidence.connection_generation
        evidence.current_connection_generation evidence.correlation_matched) [
          | some transport ↦ finish p transport
          | none ↦
              if not (is_positive evidence.account_id)
                || not (eqb_ℤ evidence.account_id p.account_id)
              then finish p invalid_account_identifier
              else if evidence.include_archived_symbols
              then finish p missing_symbol_metadata
              else settle_symbol p
                  (match_symbols evidence.archived_symbol_ids evidence.symbols [] 0)
                  (first_symbol evidence.archived_symbol_ids evidence.symbols)
        ]
  | _ ↦ finish p wrong_phase
]

unfoldable pub symbol_id_for_full_request : QuoteProof → Option ℤ
symbol_id_for_full_request p = elim (p.phase) [
  | full_symbol ↦ if is_positive p.symbol_id then some p.symbol_id else none
  | _ ↦ none
]
