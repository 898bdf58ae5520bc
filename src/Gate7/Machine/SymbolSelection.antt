-- ===== src/Gate7/Machine/SymbolSelection.antt =====
-- Which symbol list lets the quote proof go on.
use trade_bot.Base.{
  Bool, List, Option, Option-cases, [], ap, ap₂, arith, false, if◌then◌else◌, inl, inr, length,
  none, refl, some, suc, sym, true, ℕ, ◌&&◌, ◌+◌, ◌∙◌, ◌∷◌, ◌≡◌,
}
use trade_bot.Base.Int.{eq_of_parts, eqb_ℤ, ltb_ℤ, pos, ℤ, ◌<ℤ◌}
use trade_bot.Gate7.{
  Bytes, LightSymbol, QuoteProof, SymbolsListEvidence, full_symbol_ready, symbols_list,
}
use trade_bot.Gate7.Machine.{
  contains_id, finish, is_terminal, is_usable_provider_id, validate_transport_evidence,
}
use trade_bot.Gate7.Machine.Symbols.{
  accept_symbols_list, canonical_symbol, first_symbol, match_symbols, settle_symbol,
}
use trade_bot.Gate7.Machine.Spelling.{is_canonical_xauusd-is_spelled, is_spelled}

unfoldable pub among : ℤ → List ℤ → Bool
among id [] = false
among id (archived ∷ rest) = if eqb_ℤ archived id then true else among id rest

-- A candidate: an enabled symbol, neither marked as archived nor among the archived ones, with a
-- positive identifier and XAUUSD as its name, in large or small letters with one slash at most.
unfoldable pub candidate :
    List ℤ → Bool → Option ℤ → Option Bytes → Option Bool → Option (ℤ × Bytes)
candidate ids false (some id) (some name) (some true) =
    if among id ids
    then none
    else if ltb_ℤ (pos 0) id && is_spelled name
    then some (id, name)
    else none
candidate ids archived id name enabled = none

-- The candidates of a list, in order.
unfoldable pub symbol_candidates : List ℤ → List LightSymbol → List (ℤ × Bytes)
unfolding candidate
symbol_candidates ids [] = []
symbol_candidates ids (s ∷ rest) =
    let later = symbol_candidates ids rest in
    elim (candidate ids s.archived s.symbol_id s.symbol_name s.enabled) [
      | none ↦ later
      | some found ↦ found ∷ later
    ]

contains_id-among : (ids : List ℤ) (id : ℤ) → contains_id ids id ≡ among id ids
unfolding contains_id among
contains_id-among [] id = refl
contains_id-among (archived ∷ rest) id = ground (arith, contains_id-among rest id)

canonical_symbol-candidate :
    (ids : List ℤ) (archived : Bool) (id : Option ℤ) (name : Option Bytes) (enabled : Option Bool)
    → canonical_symbol ids archived id name enabled ≡ candidate ids archived id name enabled
unfolding canonical_symbol candidate is_usable_provider_id
canonical_symbol-candidate ids archived (some id) (some name) (some true) =
    ground (arith, contains_id-among ids id, is_canonical_xauusd-is_spelled name)
canonical_symbol-candidate ids archived id name enabled = ground arith

abbrev last_name : Bytes → List (ℤ × Bytes) → Bytes
last_name name [] = name
last_name name (found ∷ rest) = last_name found.1 rest

abbrev head : List (ℤ × Bytes) → Option (ℤ × Bytes)
head [] = none
head (found ∷ rest) = some found

match_symbols-symbol_candidates :
    (ids : List ℤ) (symbols : List LightSymbol) (name : Bytes) (k : ℕ)
    → match_symbols ids symbols name k
      ≡ (last_name name (symbol_candidates ids symbols), k + length (symbol_candidates ids symbols))
unfolding match_symbols symbol_candidates
match_symbols-symbol_candidates ids [] name k = ap (λ n. (name, n)) (omega arith)
match_symbols-symbol_candidates ids (s ∷ rest) name k =
    let same = canonical_symbol-candidate ids s.archived s.symbol_id s.symbol_name s.enabled in
    elim (Option-cases (candidate ids s.archived s.symbol_id s.symbol_name s.enabled)) [
      | inl e ↦
          rw (match_symbols, symbol_candidates, same, e)
            (match_symbols-symbol_candidates ids rest name k)
      | inr (found, e) ↦
          rw (match_symbols, symbol_candidates, same, e)
            (match_symbols-symbol_candidates ids rest found.1 (suc k)
              ∙ ap (λ n. (last_name found.1 (symbol_candidates ids rest), n)) (omega arith))
    ]

first_symbol-head :
    (ids : List ℤ) (symbols : List LightSymbol)
    → first_symbol ids symbols ≡ head (symbol_candidates ids symbols)
unfolding first_symbol symbol_candidates
first_symbol-head ids [] = refl
first_symbol-head ids (s ∷ rest) =
    let same = canonical_symbol-candidate ids s.archived s.symbol_id s.symbol_name s.enabled in
    elim (Option-cases (candidate ids s.archived s.symbol_id s.symbol_name s.enabled)) [
      | inl e ↦ rw (first_symbol, symbol_candidates, same, e) (first_symbol-head ids rest)
      | inr (found, e) ↦ rw (first_symbol, symbol_candidates, same, e) refl
    ]

-- What a symbol list must bring: the transport's evidence, the account of the proof, no archived
-- symbols, and one candidate.
pub record SelectsSymbol (p : QuoteProof) (e : SymbolsListEvidence) (id : ℤ) (name : Bytes)
    : Type 0 where
  pub here : p.phase ≡ symbols_list
  pub generation : e.connection_generation ≡ p.connection_generation
  pub current : e.current_connection_generation ≡ true
  pub correlated : e.correlation_matched ≡ true
  pub account : e.account_id ≡ p.account_id
  pub real_account : pos 0 <ℤ e.account_id
  pub current_only : e.include_archived_symbols ≡ false
  pub one : symbol_candidates e.archived_symbol_ids e.symbols ≡ (id, name) ∷ []

settled :
    (p : QuoteProof) (found : List (ℤ × Bytes))
    → (settle_symbol p (last_name [] found, 0 + length found) (head found)).1 ≡ full_symbol_ready
    → (id : ℤ) × (name : Bytes) × (found ≡ (id, name) ∷ [])
      × ((settle_symbol p (last_name [] found, 0 + length found) (head found)).0.symbol_id ≡ id)
      × ((settle_symbol p (last_name [] found, 0 + length found) (head found)).0.symbol_name ≡ name)
unfolding settle_symbol finish
settled p [] h = ground arith
settled p ((id, name) ∷ []) h = (id, name, refl, ground arith, ground arith)
settled p (one ∷ other ∷ rest) h = ground arith

guards :
    (p : QuoteProof) (e : SymbolsListEvidence)
    → (accept_symbols_list p e).1 ≡ full_symbol_ready
    → (accept_symbols_list p e
        ≡ settle_symbol p
            (match_symbols e.archived_symbol_ids e.symbols [] 0)
            (first_symbol e.archived_symbol_ids e.symbols))
      × (p.phase ≡ symbols_list)
      × (e.connection_generation ≡ p.connection_generation)
      × (e.current_connection_generation ≡ true)
      × (e.correlation_matched ≡ true)
      × (e.account_id ≡ p.account_id)
      × (pos 0 <ℤ e.account_id)
      × (e.include_archived_symbols ≡ false)
unfolding accept_symbols_list is_terminal finish validate_transport_evidence
guards p e h = (
  ground arith,
  ground arith,
  ground arith,
  ground arith,
  ground arith,
  eq_of_parts e.account_id p.account_id (ground arith),
  ground arith,
  ground arith,
)

-- The symbol list is accepted only in its phase, with current and correlated evidence of the proof's
-- own account, whose identifier is positive, that leaves the archived symbols out, and with a single candidate, whose identifier and name the proof then has.
pub accept_symbols_list-SelectsSymbol :
    (p : QuoteProof) (e : SymbolsListEvidence)
    → (accept_symbols_list p e).1 ≡ full_symbol_ready
    → (id : ℤ) × (name : Bytes) × SelectsSymbol p e id name
      × ((accept_symbols_list p e).0.symbol_id ≡ id)
      × ((accept_symbols_list p e).0.symbol_name ≡ name)
accept_symbols_list-SelectsSymbol p e h =
    let ids = e.archived_symbol_ids in
    let (same, here, generation, current, correlated, account, real_account, current_only) =
      guards p e h in
    let counted =
      same
      ∙ ap₂ (settle_symbol p) (match_symbols-symbol_candidates ids e.symbols [] 0)
          (first_symbol-head ids e.symbols) in
    let (id, name, one, chosen, named) =
      settled p (symbol_candidates ids e.symbols) (sym (ap (λ o. o.1) counted) ∙ h) in
    (
      id,
      name,
      record {
        here = here;
        generation = generation;
        current = current;
        correlated = correlated;
        account = account;
        real_account = real_account;
        current_only = current_only;
        one = one;
      },
      ap (λ o. o.0.symbol_id) counted ∙ chosen,
      ap (λ o. o.0.symbol_name) counted ∙ named,
    )
