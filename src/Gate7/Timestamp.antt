-- ===== src/Gate7/Timestamp.antt =====
-- The classification of a provider's timestamp in src/CTraderGate7Proof.cpp: the number is read in
-- four units, and a unit is proved when it alone puts the time near the receipt.
pub mod Candidates
use trade_bot.Base.{
  ℕ, ◌-◌, ◌*◌, ◌/◌, Bool, true, false, Option, none, some, List, [], ◌∷◌, ltb, leb, ◌==◌,
  if◌then◌else◌,
}
use trade_bot.Base.Int.{ℤ, pos, ◌-ℤ◌}
use trade_bot.Gate7.{
  TimestampUnit, seconds, milliseconds, microseconds, nanoseconds, TimestampProof,
  TimestampClassification, ready, timestamp_unit_unproven, timestamp_stale, timestamp_future,
}

abbrev pub max_uint64 : ℕ
max_uint64 = 18446744073709551615

-- `multipliers` and `units`.
abbrev pub multipliers : List (ℕ × TimestampUnit)
multipliers =
    (1_000_000_000, seconds)
    ∷ (1_000_000, milliseconds)
    ∷ (1_000, microseconds)
    ∷ (1, nanoseconds)
    ∷ []

-- `MAX_AGE_NS` and `MAX_FUTURE_NS`.
abbrev pub max_age_ns : ℕ
max_age_ns = 120_000_000_000

abbrev pub max_future_ns : ℕ
max_future_ns = 5_000_000_000

-- The variables of the loop.
pub record Scan : Type 0 where
  pub result : Option TimestampProof
  pub closest_distance : Option ℕ
  pub closest_timestamp : ℕ
  pub closest_tied : Bool

unfoldable pub distance : ℕ → ℕ → ℕ
distance timestamp_ns receipt =
    if leb timestamp_ns receipt then receipt - timestamp_ns else timestamp_ns - receipt

unfoldable pub track_closest : ℕ → ℕ → Scan → Scan
track_closest timestamp_ns d s = elim s.closest_distance [
  | none ↦ record s {
    closest_distance = some d;
    closest_timestamp = timestamp_ns;
    closest_tied = false;
  }
  | some closest ↦
      if ltb d closest
      then record s {
        closest_distance = some d;
        closest_timestamp = timestamp_ns;
        closest_tied = false;
      }
      else if d == closest
      then record s { closest_tied = true }
      else s
]

-- The signed age, if it is inside the window.
unfoldable pub freshness : ℕ → ℕ → Option ℤ
freshness timestamp_ns receipt =
    if leb timestamp_ns receipt
    then (if ltb max_age_ns (receipt - timestamp_ns)
        then none
        else some (pos (receipt - timestamp_ns)))
    else if ltb max_future_ns (timestamp_ns - receipt)
    then none
    else some (pos 0 -ℤ pos (timestamp_ns - receipt))

-- Nothing stands for the return inside the loop, on a second unit.
unfoldable pub scan : ℕ → ℕ → List (ℕ × TimestampUnit) → Scan → Option Scan
unfolding distance track_closest freshness
scan raw receipt [] s = some s
scan raw receipt ((m, u) ∷ rest) s =
    let tracked = track_closest (raw * m) (distance (raw * m) receipt) s in
    let skipped = scan raw receipt rest s in
    let outside = scan raw receipt rest tracked in
    let inside : ℤ → Option Scan = λ delta. scan raw receipt rest (record tracked {
      result = some (record {
        unit = u;
        timestamp_ns = raw * m;
        receipt_timestamp_ns = receipt;
        freshness_delta_ns = delta;
      });
    }) in
    if ltb (max_uint64 / m) raw then skipped else elim (freshness (raw * m) receipt) [
      | none ↦ outside
      | some delta ↦ elim s.result [ none ↦ inside delta | some p ↦ none ]
    ]

abbrev pub scan_start : Scan
scan_start = record {
  result = none;
  closest_distance = none;
  closest_timestamp = 0;
  closest_tied = false;
}

-- The code after the loop.
unfoldable pub conclude : ℕ → Scan → TimestampClassification
conclude receipt s = elim s.result [
  | some p ↦ record { decision = ready; proof = some p }
  | none ↦ elim s.closest_distance [
    | none ↦ record { decision = timestamp_unit_unproven; proof = none }
    | some d ↦ record {
      decision =
          if s.closest_tied
          then timestamp_unit_unproven
          else if ltb s.closest_timestamp receipt
          then timestamp_stale
          else timestamp_future;
      proof = none;
    }
  ]
]

unfoldable pub classify_timestamp_detailed : ℕ → ℕ → TimestampClassification
unfolding scan conclude
classify_timestamp_detailed raw receipt =
    if receipt == 0
    then record { decision = timestamp_unit_unproven; proof = none }
    else elim (scan raw receipt multipliers scan_start) [
      | none ↦ record { decision = timestamp_unit_unproven; proof = none }
      | some s ↦ conclude receipt s
    ]

unfoldable pub classify_timestamp : ℕ → ℕ → Option TimestampProof
unfolding classify_timestamp_detailed
classify_timestamp raw receipt = (classify_timestamp_detailed raw receipt).proof
