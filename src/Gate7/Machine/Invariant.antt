-- ===== src/Gate7/Machine/Invariant.antt =====
-- What holds of the quote proof in each of its phases.
use trade_bot.Base.{Option, [], none, refl, some, true, ℕ, ◌%◌, ◌≡◌, ◌≤◌}
use trade_bot.Base.Int.{pos, ◌-ℤ◌, ◌<ℤ◌, ◌≤ℤ◌}
use trade_bot.Broker.{max_scale}
use trade_bot.Financial.Units.{magnitude}
use trade_bot.Gate7.{
  Bytes, Decision, InstrumentSpec, Phase, QuoteEvidence, QuoteProof, account_authentication,
  account_list, complete, full_symbol, spot, subscription, symbols_list, terminal,
}
use trade_bot.Gate7.Names.{is_canonical_xauusd, xauusd}
use trade_bot.Gate7.Price.{normalize_spot_price}
use trade_bot.Gate7.Timestamp.{classify_timestamp_detailed}
use trade_bot.Gate7.Machine.{finish, clear_all, clear_sensitive_state}

-- Volumes that are multiples of a positive step, and a tick of one unit at the symbol's digits.
pub record IsTradable (i : InstrumentSpec) : Type 0 where
  pub canonical : i.canonical_symbol ≡ xauusd
  pub alias : is_canonical_xauusd i.execution_alias ≡ true
  pub one_tick : i.tick_size.units ≡ pos 1
  pub digits : i.tick_size.scale ≤ max_scale
  pub step : pos 0 <ℤ i.quantity_step.units
  pub least : pos 0 <ℤ i.minimum_quantity.units
  pub ordered : i.minimum_quantity.units ≤ℤ i.maximum_quantity.units
  pub least_steps : magnitude i.minimum_quantity.units % magnitude i.quantity_step.units ≡ 0
  pub most_steps : magnitude i.maximum_quantity.units % magnitude i.quantity_step.units ≡ 0

-- A quote over a tradable instrument: prices normalized from the wire at the instrument's digits, in
-- order, their exact difference, and a timestamp that was classified.
pub record IsQuote (q : QuoteEvidence) : Type 0 where
  pub canonical : q.canonical_symbol ≡ xauusd
  pub alias : q.execution_alias ≡ q.instrument.execution_alias
  pub tradable : IsTradable q.instrument
  pub bid_wire : (raw : ℕ) × (normalize_spot_price raw q.instrument.tick_size.scale ≡ some q.bid)
  pub ask_wire : (raw : ℕ) × (normalize_spot_price raw q.instrument.tick_size.scale ≡ some q.ask)
  pub ordered : q.bid.units ≤ℤ q.ask.units
  pub spread : q.spread.units ≡ q.ask.units -ℤ q.bid.units
  pub timely :
      (raw receipt : ℕ) × ((classify_timestamp_detailed raw receipt).proof ≡ some q.timestamp)

unfoldable pub Specified : Option InstrumentSpec → Bytes → Type 0
Specified instrument name =
    (i : InstrumentSpec) × (instrument ≡ some i) × (i.execution_alias ≡ name) × IsTradable i

unfoldable pub Quoted : Option QuoteEvidence → Type 0
Quoted quote = (q : QuoteEvidence) × (quote ≡ some q) × IsQuote q

abbrev pub IsCleared : QuoteProof → Type 0
IsCleared p =
    (p.connection_generation ≡ 0)
    × (p.account_id ≡ pos 0)
    × (p.symbol_id ≡ pos 0)
    × (p.symbol_name ≡ [])
    × (p.instrument ≡ none)

abbrev pub Unquoted : QuoteProof → Type 0
Unquoted p = p.quote_evidence ≡ none

unfoldable pub Holds : Phase → QuoteProof → Type 0
Holds account_list p = Unquoted p
Holds account_authentication p = Unquoted p
Holds symbols_list p = Unquoted p
Holds full_symbol p = Unquoted p × (is_canonical_xauusd p.symbol_name ≡ true)
Holds subscription p = Unquoted p × Specified p.instrument p.symbol_name
Holds spot p = Unquoted p × Specified p.instrument p.symbol_name
Holds complete p = Quoted p.quote_evidence
Holds terminal p = Unquoted p × IsCleared p

abbrev pub IsSound : QuoteProof → Type 0
IsSound p = Holds p.phase p

pub finish-IsSound : (p : QuoteProof) (d : Decision) → IsSound (finish p d).0
unfolding finish clear_all clear_sensitive_state Holds
finish-IsSound p d = (refl, (refl, refl, refl, refl, refl))
