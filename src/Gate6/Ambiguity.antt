-- ===== src/Gate6/Ambiguity.antt =====
-- Accounts of the same title never reach the checkpoint.
use mathlib.Core.Bool.{true≢false}
use trade_bot.Gate7.{Bytes}
use trade_bot.Base.{
  Bool-cases, List, Option-cases, [], arith, false, if-cases, inl, inr, refl, sym, true, ◌∙◌, ◌∷◌,
  ◌≡◌, ◌≤◌,
}
use trade_bot.Gate6.{
  AccountProof, Gate6AccountListEvidence, Phase, VolatileCandidate, account_auth_ready,
  awaiting_wade, awaiting_wade_checkpoint, complete, gate6_a_ready, gate6_b_ready, terminal,
}
use trade_bot.Gate6.Titles.{
  Scan, collect, has_neighbours, has_same_titles, insert_candidate, rejected, scanned,
  sort_candidates, title_lt,
}
use trade_bot.Gate7.Names.{bytes_eq}
use trade_bot.Gate6.Steps.{
  Outcome, accept_gate6_a, clear_account_identifiers, clear_all, conclude, finish, is_terminal,
  settle_candidates, validate_evidence,
}
use trade_bot.Gate6.Backing.{proof_in}
use trade_bot.Gate7.Machine.Selection.{bytes_eq→eq}

-- The order of titles.
title_lt_asym : (a b : Bytes) → title_lt a b ≡ true → title_lt b a ≡ false
unfolding title_lt
title_lt_asym a [] h = cc
title_lt_asym [] (y ∷ ys) h = refl
title_lt_asym (x ∷ xs) (y ∷ ys) h = ground (arith, h, title_lt_asym xs ys)

title_lt_trans :
    (a b c : Bytes) → title_lt b a ≡ false → title_lt c b ≡ false → title_lt c a ≡ false
unfolding title_lt
title_lt_trans [] b c h k = refl
title_lt_trans (x ∷ xs) [] c h k = cc
title_lt_trans (x ∷ xs) (y ∷ ys) [] h k = cc
title_lt_trans (x ∷ xs) (y ∷ ys) (z ∷ zs) h k = ground (arith, h, k, title_lt_trans xs ys zs)

title_lt_antisym : (a b : Bytes) → title_lt a b ≡ false → title_lt b a ≡ false → bytes_eq a b ≡ true
unfolding title_lt bytes_eq
title_lt_antisym [] [] h k = refl
title_lt_antisym [] (y ∷ ys) h k = cc
title_lt_antisym (x ∷ xs) [] h k = cc
title_lt_antisym (x ∷ xs) (y ∷ ys) h k = ground (arith, h, k, title_lt_antisym xs ys)

-- No title of the list is below a given one.
unfoldable NoneBelow : Bytes → List VolatileCandidate → Type 0
unfolding title_lt
NoneBelow title [] = 0 ≤ 0
NoneBelow title (c ∷ cs) = (title_lt c.broker_title_short title ≡ false) × NoneBelow title cs

unfoldable AllSorted : List VolatileCandidate → Type 0
unfolding NoneBelow
AllSorted [] = 0 ≤ 0
AllSorted (c ∷ cs) = NoneBelow c.broker_title_short cs × AllSorted cs

NoneBelow-trans :
    (a b : Bytes) (cs : List VolatileCandidate)
    → title_lt b a ≡ false
    → NoneBelow b cs
    → NoneBelow a cs
unfolding NoneBelow
NoneBelow-trans a b [] h all = all
NoneBelow-trans a b (c ∷ cs) h all =
    (title_lt_trans a b c.broker_title_short h (all.0), NoneBelow-trans a b cs h (all.1))

NoneBelow-insert_candidate :
    (title : Bytes) (c : VolatileCandidate) (cs : List VolatileCandidate)
    → title_lt c.broker_title_short title ≡ false
    → NoneBelow title cs
    → NoneBelow title (insert_candidate c cs)
unfolding NoneBelow insert_candidate
NoneBelow-insert_candidate title c [] h all = (h, all)
NoneBelow-insert_candidate title c (d ∷ ds) h all =
    if-cases (NoneBelow title) (title_lt d.broker_title_short c.broker_title_short) _ _
      (λ lower. (all.0, NoneBelow-insert_candidate title c ds h (all.1))) (λ higher. (h, all))

AllSorted-insert_candidate :
    (c : VolatileCandidate) (cs : List VolatileCandidate)
    → AllSorted cs
    → AllSorted (insert_candidate c cs)
unfolding AllSorted insert_candidate NoneBelow
AllSorted-insert_candidate c [] all = (all, all)
AllSorted-insert_candidate c (d ∷ ds) all =
    if-cases AllSorted (title_lt d.broker_title_short c.broker_title_short) _ _
      (λ lower. (
        NoneBelow-insert_candidate d.broker_title_short c ds
            (title_lt_asym d.broker_title_short c.broker_title_short lower) (all.0),
        AllSorted-insert_candidate c ds (all.1),
      ))
      (λ higher. (
        (higher, NoneBelow-trans c.broker_title_short d.broker_title_short ds higher (all.0)),
        all,
      ))

AllSorted-sort_candidates : (cs : List VolatileCandidate) → AllSorted (sort_candidates cs)
unfolding sort_candidates AllSorted
AllSorted-sort_candidates [] = omega arith
AllSorted-sort_candidates (c ∷ cs) =
    AllSorted-insert_candidate c (sort_candidates cs) (AllSorted-sort_candidates cs)

-- No two candidates have the same title.
unfoldable pub Unlike : Bytes → List VolatileCandidate → Type 0
unfolding bytes_eq
Unlike title [] = 0 ≤ 0
Unlike title (c ∷ cs) = (bytes_eq title c.broker_title_short ≡ false) × Unlike title cs

unfoldable pub AllUnlike : List VolatileCandidate → Type 0
unfolding Unlike
AllUnlike [] = 0 ≤ 0
AllUnlike (c ∷ cs) = Unlike c.broker_title_short cs × AllUnlike cs

Unlike-NoneBelow :
    (a b : Bytes) (cs : List VolatileCandidate)
    → bytes_eq a b ≡ false
    → title_lt b a ≡ false
    → NoneBelow b cs
    → Unlike a cs
unfolding NoneBelow Unlike
Unlike-NoneBelow a b [] h k all = omega arith
Unlike-NoneBelow a b (c ∷ cs) h k all = elim (Bool-cases (bytes_eq a c.broker_title_short)) [
  | inr other ↦ (other, Unlike-NoneBelow a b cs h k (all.1))
  | inl same ↦
      let e : a ≡ c.broker_title_short = bytes_eq→eq a c.broker_title_short same in
      let low : title_lt a b ≡ false = rw e (all.0) in
      absurd (true≢false (sym (title_lt_antisym a b low k) ∙ h))
]

-- In a sorted list it is enough to compare neighbours.
AllUnlike-AllSorted :
    (c : VolatileCandidate) (cs : List VolatileCandidate)
    → AllSorted (c ∷ cs)
    → has_neighbours c.broker_title_short cs ≡ false
    → AllUnlike (c ∷ cs)
unfolding AllSorted AllUnlike NoneBelow Unlike has_neighbours
AllUnlike-AllSorted c [] all h = (omega arith, omega arith)
AllUnlike-AllSorted c (d ∷ ds) ((above, higher), (rest, all)) h =
    let differ : bytes_eq c.broker_title_short d.broker_title_short ≡ false = ground (arith, h) in
    let later : has_neighbours d.broker_title_short ds ≡ false = ground (arith, h) in
    (
      (differ, Unlike-NoneBelow c.broker_title_short d.broker_title_short ds differ above rest),
      AllUnlike-AllSorted d ds (rest, all) later,
    )

sorted-AllUnlike :
    (cs : List VolatileCandidate) → AllSorted cs → has_same_titles cs ≡ false → AllUnlike cs
unfolding has_same_titles AllUnlike
sorted-AllUnlike [] all h = omega arith
sorted-AllUnlike (c ∷ cs) all h = AllUnlike-AllSorted c cs all h

settle_candidates-AllUnlike :
    (p : AccountProof) (scan : Scan (List VolatileCandidate))
    → AllUnlike (settle_candidates p scan).0.volatile_candidates
unfolding settle_candidates AllUnlike finish clear_all clear_account_identifiers conclude
settle_candidates-AllUnlike p (rejected d) = omega arith
settle_candidates-AllUnlike p (scanned []) = omega arith
settle_candidates-AllUnlike p (scanned (c ∷ cs)) =
    if-cases (λ (o : Outcome). AllUnlike o.0.volatile_candidates)
      (has_same_titles (sort_candidates (c ∷ cs))) _ _ (λ same. omega arith)
      (λ distinct.
        sorted-AllUnlike (sort_candidates (c ∷ cs)) (AllSorted-sort_candidates (c ∷ cs)) distinct)

phase-AllUnlike :
    (p : AccountProof) (phase : Phase) (evidence : Gate6AccountListEvidence)
    → (accept_gate6_a (proof_in phase p) evidence).1 ≡ awaiting_wade_checkpoint
    → AllUnlike (accept_gate6_a (proof_in phase p) evidence).0.volatile_candidates
unfolding accept_gate6_a is_terminal conclude finish clear_all clear_account_identifiers AllUnlike
phase-AllUnlike p gate6_a_ready evidence h = elim (Option-cases (validate_evidence evidence)) [
  | inl valid ↦ rw valid (
      settle_candidates-AllUnlike
        (record (clear_account_identifiers (proof_in gate6_a_ready p)) { safe_candidates = [] })
        (collect evidence.accounts []))
  | inr (d, refuse) ↦ rw refuse (omega arith)
]
phase-AllUnlike p awaiting_wade evidence h = omega arith
phase-AllUnlike p gate6_b_ready evidence h = omega arith
phase-AllUnlike p account_auth_ready evidence h = omega arith
phase-AllUnlike p complete evidence h = cc
phase-AllUnlike p terminal evidence h = cc

-- An account list that leads to the checkpoint leaves candidates of pairwise different titles,
-- although only neighbours are compared after the sort.
pub accept_gate6_a-AllUnlike :
    (p : AccountProof) (evidence : Gate6AccountListEvidence)
    → (accept_gate6_a p evidence).1 ≡ awaiting_wade_checkpoint
    → AllUnlike (accept_gate6_a p evidence).0.volatile_candidates
accept_gate6_a-AllUnlike p evidence h = phase-AllUnlike p p.phase evidence h
