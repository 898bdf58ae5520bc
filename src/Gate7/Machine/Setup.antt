-- ===== src/Gate7/Machine/Setup.antt =====
-- The calls up to the subscription keep the invariant.
use trade_bot.Base.{
  Bool, List, Option, Option-cases, [], arith, false, inl, inr, none, refl, some, true, ℕ, ◌∷◌, ◌≡◌,
}
use trade_bot.Base.Int.{ℤ}
use trade_bot.Financial.Units.{magnitude}
use trade_bot.Gate7.{
  AccountListEvidence, Bytes, Decision, FullSymbol, FullSymbolEvidence, LightSymbol, QuoteProof,
  SubscriptionEvidence, SymbolsListEvidence,
}
use trade_bot.Gate7.Names.{is_canonical_xauusd}
use trade_bot.Gate7.Machine.{is_terminal, terminate, finish, clear_all, clear_sensitive_state}
use trade_bot.Gate7.Machine.Accounts.{
  accept_account_authentication, accept_account_list, settle_account,
}
use trade_bot.Gate7.Machine.Symbols.{
  accept_symbols_list, canonical_symbol, eligible_symbol, first_symbol, match_symbols,
  settle_symbol,
}
use trade_bot.Gate7.Machine.Instruments.{
  Metadata, accept_full_symbol, instrument_of, match_full, metadata_of, metadata_rejected,
  settle_full,
}
use trade_bot.Gate7.Machine.Quotes.{accept_subscription}
use trade_bot.Gate7.Machine.Invariant.{Holds, IsSound, IsTradable, Specified, Unquoted}

pub accounts-IsSound :
    (p : QuoteProof) (e : AccountListEvidence) → IsSound p → IsSound (accept_account_list p e).0
unfolding accept_account_list settle_account Holds is_terminal finish clear_all
    clear_sensitive_state
accounts-IsSound p e s = ground arith

pub account-IsSound :
    (p : QuoteProof) (id : ℤ) → IsSound p → IsSound (accept_account_authentication p id).0
unfolding accept_account_authentication Holds finish clear_all clear_sensitive_state
account-IsSound p id s = ground arith

pub subscription-IsSound :
    (p : QuoteProof) (e : SubscriptionEvidence) → IsSound p → IsSound (accept_subscription p e).0
unfolding accept_subscription Holds is_terminal finish clear_all clear_sensitive_state
subscription-IsSound p e s = ground arith

pub terminate-IsSound : (p : QuoteProof) (d : Decision) → IsSound p → IsSound (terminate p d).0
unfolding terminate finish clear_all clear_sensitive_state Holds is_terminal
terminate-IsSound p d s = ground arith

-- The symbol that the second loop finds has passed its tests.
canonical_symbol-Named :
    (ids : List ℤ) (archived : Bool) (i : Option ℤ) (n : Option Bytes) (b : Option Bool) (id : ℤ)
    (name : Bytes)
    → canonical_symbol ids archived i n b ≡ some (id, name)
    → is_canonical_xauusd name ≡ true
unfolding canonical_symbol
canonical_symbol-Named ids archived (some i) (some n) (some true) id name h = ground arith
canonical_symbol-Named ids archived i n b id name h = ground arith

first_symbol-Named :
    (ids : List ℤ) (symbols : List LightSymbol) (id : ℤ) (name : Bytes)
    → first_symbol ids symbols ≡ some (id, name)
    → is_canonical_xauusd name ≡ true
unfolding first_symbol eligible_symbol
first_symbol-Named ids [] id name h = ground arith
first_symbol-Named ids (symbol ∷ symbols) id name h = ground (
  arith,
  first_symbol-Named ids symbols id name,
  canonical_symbol-Named ids symbol.archived symbol.symbol_id symbol.symbol_name symbol.enabled id
      name,
)

first_symbol-none :
    (ids : List ℤ) (symbols : List LightSymbol) (name : Bytes) (n : ℕ)
    → first_symbol ids symbols ≡ none
    → (match_symbols ids symbols name n).1 ≡ n
unfolding first_symbol match_symbols
first_symbol-none ids [] name n h = refl
first_symbol-none ids (symbol ∷ symbols) name n h =
    ground (arith, first_symbol-none ids symbols name n)

settle_symbol-IsSound :
    (p : QuoteProof) (name : Bytes) (n : ℕ) (found : Option (ℤ × Bytes))
    → Unquoted p
    → (found ≡ none → n ≡ 0)
    → ((id : ℤ) (title : Bytes) → found ≡ some (id, title) → is_canonical_xauusd title ≡ true)
    → IsSound (settle_symbol p (name, n) found).0
unfolding settle_symbol finish clear_all clear_sensitive_state Holds
settle_symbol-IsSound p name n none u empty named = ground (arith, empty refl)
settle_symbol-IsSound p name n (some (id, title)) u empty named =
    ground (arith, named id title refl)

pub symbols-IsSound :
    (p : QuoteProof) (e : SymbolsListEvidence) → IsSound p → IsSound (accept_symbols_list p e).0
unfolding accept_symbols_list finish clear_all clear_sensitive_state Holds is_terminal
symbols-IsSound p e s =
    let ids = e.archived_symbol_ids in
    let settled : Unquoted p
        → IsSound
            (settle_symbol p (match_symbols ids e.symbols [] 0) (first_symbol ids e.symbols)).0 =
      λ u.
        settle_symbol-IsSound p _ _ _ u (first_symbol-none ids e.symbols [] 0)
          (first_symbol-Named ids e.symbols) in
    ground (arith, settled)

instrument-IsTradable :
    (name : Bytes) (m : Metadata)
    → is_canonical_xauusd name ≡ true
    → metadata_rejected m ≡ false
    → IsTradable (instrument_of name m)
unfolding instrument_of metadata_rejected magnitude
instrument-IsTradable name m named accepted = record {
  canonical = refl;
  alias = named;
  one_tick = refl;
  digits = ground arith;
  step = ground arith;
  least = ground arith;
  ordered = ground arith;
  least_steps = ground arith;
  most_steps = ground arith;
}

instrument-Specified :
    (name : Bytes) (m : Metadata)
    → is_canonical_xauusd name ≡ true
    → metadata_rejected m ≡ false
    → Specified (some (instrument_of name m)) name
unfolding Specified instrument_of
instrument-Specified name m named accepted =
    (instrument_of name m, refl, refl, instrument-IsTradable name m named accepted)

settle_full-IsSound :
    (p : QuoteProof) (f : Option FullSymbol) (n : ℕ)
    → Unquoted p
    → is_canonical_xauusd p.symbol_name ≡ true
    → IsSound (settle_full p (f, n)).0
unfolding settle_full finish clear_all clear_sensitive_state Holds
settle_full-IsSound p none n u named = (refl, (refl, refl, refl, refl, refl))
settle_full-IsSound p (some f) n u named = elim (Option-cases (metadata_of f)) [
  | inl missing ↦ ground (arith, missing)
  | inr (m, given) ↦ ground (arith, given, instrument-Specified p.symbol_name m named)
]

pub full-IsSound :
    (p : QuoteProof) (e : FullSymbolEvidence) → IsSound p → IsSound (accept_full_symbol p e).0
unfolding accept_full_symbol finish clear_all clear_sensitive_state Holds is_terminal
full-IsSound p e s =
    let m : Option FullSymbol × ℕ = match_full p.symbol_id e.symbols none 0 in
    let settled : Unquoted p
        → is_canonical_xauusd p.symbol_name ≡ true
        → IsSound (settle_full p (match_full p.symbol_id e.symbols none 0)).0 =
      settle_full-IsSound p m.0 m.1 in
    ground (arith, settled)
