-- ===== src/Gate7/Timestamp/Candidates.antt =====
-- The loop over the units against its specification: a unit is a candidate when the time that it
-- gives is a 64-bit number inside the window, and the timestamp is proved by a sole candidate.
use native.Mathlib.Nat.{le-div_iff_mul-le, div-lt_iff_lt-mul}
use trade_bot.Base.{
  sym, Bool-cases, Option-cases, inl, inr, refl, ◌∙◌, ap, Bool, List, Option, [], arith, false,
  if◌then◌else◌, leb, ltb, none, some, true, ℕ, ◌&&◌, ◌*◌, ◌+◌, ◌/◌, ◌<◌, ◌∷◌, ◌≡◌, ◌≤◌,
}
use trade_bot.Base.Int.{pos, ◌-ℤ◌}
use trade_bot.Gate7.{Decision, ready, TimestampProof, TimestampUnit}
use trade_bot.Gate7.Timestamp.{
  distance, scan, conclude, multipliers, scan_start, classify_timestamp_detailed, Scan, freshness,
  max_age_ns, max_future_ns, max_uint64, track_closest,
}

-- At most five seconds ahead of the receipt and at most two minutes behind it.
unfoldable admissible : ℕ → ℕ → Bool
admissible timestamp_ns receipt =
    leb timestamp_ns max_uint64
    && leb timestamp_ns (receipt + max_future_ns)
    && leb receipt (timestamp_ns + max_age_ns)

unfoldable reading : ℕ → ℕ → TimestampUnit → TimestampProof
reading timestamp_ns receipt u = record {
  unit = u;
  timestamp_ns = timestamp_ns;
  receipt_timestamp_ns = receipt;
  freshness_delta_ns = pos receipt -ℤ pos timestamp_ns;
}

-- The readings of the units whose time is admissible.
unfoldable pub candidates : ℕ → ℕ → List (ℕ × TimestampUnit) → List TimestampProof
unfolding admissible reading
candidates raw receipt [] = []
candidates raw receipt ((m, u) ∷ rest) =
    let later = candidates raw receipt rest in
    if admissible (raw * m) receipt then reading (raw * m) receipt u ∷ later else later

unfoldable pub sole : List TimestampProof → Option TimestampProof
sole [] = none
sole (p ∷ []) = some p
sole (p ∷ q ∷ rest) = none

abbrev found : Option TimestampProof → List TimestampProof → List TimestampProof
found none later = later
found (some p) later = p ∷ later

abbrev result_of : Option Scan → Option TimestampProof
result_of none = none
result_of (some s) = s.result

abbrev positive : List (ℕ × TimestampUnit) → Bool
positive [] = true
positive ((m, u) ∷ rest) = ltb 0 m && positive rest

track_closest-result : (t d : ℕ) (s : Scan) → (track_closest t d s).result ≡ s.result
unfolding track_closest
track_closest-result t d s = ground arith

fits : (raw m : ℕ) → 0 < m → ltb (max_uint64 / m) raw ≡ false → raw * m ≤ max_uint64
fits raw m h e = (le-div_iff_mul-le h).0 (ground arith)

overflows : (raw m : ℕ) → 0 < m → ltb (max_uint64 / m) raw ≡ true → max_uint64 < raw * m
overflows raw m h e = (div-lt_iff_lt-mul h).0 (ground arith)

fresh :
    (t receipt : ℕ)
    → t ≤ max_uint64
    → admissible t receipt ≡ true
    → freshness t receipt ≡ some (pos receipt -ℤ pos t)
unfolding admissible freshness ◌-ℤ◌
fresh t receipt h a = ground arith

stale : (t receipt : ℕ) → t ≤ max_uint64 → admissible t receipt ≡ false → freshness t receipt ≡ none
unfolding admissible freshness
stale t receipt h a = ground arith

oversized : (t receipt : ℕ) → max_uint64 < t → admissible t receipt ≡ false
unfolding admissible
oversized t receipt h = ground arith

loop :
    (raw receipt : ℕ) (units : List (ℕ × TimestampUnit)) (s : Scan)
    → positive units ≡ true
    → result_of (scan raw receipt units s) ≡ sole (found s.result (candidates raw receipt units))
unfolding scan candidates sole reading
loop raw receipt [] s h = elim (s.result) as (λ o. o ≡ sole (found o [])) [
  | none ↦ refl
  | some p ↦ refl
]
loop raw receipt ((m, u) ∷ rest) s h = elim (Bool-cases (ltb (max_uint64 / m) raw)) [
  | inl large ↦
      rw (large, oversized (raw * m) receipt (overflows raw m (ground arith) large))
        (loop raw receipt rest s (ground arith))
  | inr small ↦ elim (Bool-cases (admissible (raw * m) receipt)) [
    | inl inside ↦ elim (Option-cases s.result) [
      | inl first ↦
          rw
            (small, inside, fresh (raw * m) receipt (fits raw m (ground arith) small) inside, first)
            (loop raw receipt rest _ (ground arith))
      | inr (p, second) ↦
          rw
            (
              small,
              inside,
              fresh (raw * m) receipt (fits raw m (ground arith) small) inside,
              second,
            )
            refl
    ]
    | inr outside ↦
        rw (small, outside, stale (raw * m) receipt (fits raw m (ground arith) small) outside)
          (loop raw receipt rest (track_closest (raw * m) (distance (raw * m) receipt) s)
              (ground arith)
            ∙ ap (λ o. sole (found o (candidates raw receipt rest)))
                (track_closest-result (raw * m) (distance (raw * m) receipt) s))
  ]
]

unfoldable pub is_ready : Decision → Bool
is_ready d = elim d [ ready ↦ true | _ ↦ false ]

unfoldable pub is_given : Option TimestampProof → Bool
is_given none = false
is_given (some p) = true

conclude-result : (receipt : ℕ) (s : Scan) → (conclude receipt s).proof ≡ s.result
unfolding conclude
conclude-result receipt s = ground arith

conclude-ready :
    (receipt : ℕ) (s : Scan)
    → is_given (conclude receipt s).proof ≡ is_ready (conclude receipt s).decision
unfolding conclude is_given is_ready
conclude-ready receipt s = ground arith

-- With a receipt time, the proof is the reading of the only admissible unit: there is none where no
-- unit or more than one is admissible. The decision is Ready exactly when there is a proof.
pub classify_timestamp_detailed-sole :
    (raw receipt : ℕ)
    → 0 < receipt
    → ((classify_timestamp_detailed raw receipt).proof ≡ sole (candidates raw receipt multipliers))
      × (is_given (classify_timestamp_detailed raw receipt).proof
          ≡ is_ready (classify_timestamp_detailed raw receipt).decision)
unfolding classify_timestamp_detailed is_given is_ready
classify_timestamp_detailed-sole raw receipt h =
    let looped = loop raw receipt multipliers scan_start refl in
    elim (Option-cases (scan raw receipt multipliers scan_start)) [
      | inl e ↦ ground (arith, e, ap result_of (sym e) ∙ looped)
      | inr (s, e) ↦ ground (
        arith,
        e,
        conclude-result receipt s ∙ ap result_of (sym e) ∙ looped,
        conclude-ready receipt s,
      )
    ]
