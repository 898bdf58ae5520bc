-- ===== src/Gate6/Backing.antt =====
-- Each call keeps what is behind the phases.
use trade_bot.Gate7.{Bytes}
use trade_bot.Gate7.Machine.Selection.{last_or}
use trade_bot.Base.{
  Bool-cases, List, Option-cases, [], arith, if-cases, inl, inr, length, not, refl, true, ℕ, ◌+◌,
  ◌==◌, ◌∷◌, ◌≡◌,
}
use trade_bot.Gate6.{
  AccountProof, Gate6AccountListEvidence, Phase, VolatileCandidate, account_auth_ready,
  ambiguous_demo_account, awaiting_wade, complete, gate6_a_ready, gate6_b_ready,
  no_eligible_demo_account, terminal, wade_selection_rejected, wrong_phase,
}
use trade_bot.Gate6.Titles.{
  Scan, collect, contains_title, has_same_titles, is_safe_broker_title, match_accounts, rejected,
  scanned, sort_candidates,
}
use trade_bot.Gate6.Steps.{
  Outcome, accept_gate6_a, accept_gate6_b, clear_account_identifiers, conclude,
  confirm_wade_selection, is_empty_title, is_terminal, settle_candidates, settle_match,
  validate_evidence,
}
use trade_bot.Gate6.Calls.{Call, confirm, gate6_a, gate6_b}
use trade_bot.Gate6.Demo.{
  AllDemo, AllDemo-sort_candidates, HasDemo-contains_title, collect-AllDemo,
  match_accounts-title_ids,
}
use trade_bot.Gate6.Approval.{Backed, Backed-cons, Confirmed, IsBacked, Made, finish-IsBacked}

settle_candidates-IsBacked :
    (evidence : Gate6AccountListEvidence) (calls : List Call) (p : AccountProof)
    (scan : Scan (List VolatileCandidate))
    → collect evidence.accounts [] ≡ scan
    → IsBacked (gate6_a evidence ∷ calls) (settle_candidates p scan).0
unfolding Backed Made settle_candidates AllDemo
settle_candidates-IsBacked evidence calls p (rejected d) e =
    finish-IsBacked (gate6_a evidence ∷ calls) p d
settle_candidates-IsBacked evidence calls p (scanned []) e =
    finish-IsBacked (gate6_a evidence ∷ calls) p no_eligible_demo_account
settle_candidates-IsBacked evidence calls p (scanned (c ∷ cs)) e =
    let all =
      collect-AllDemo evidence.accounts evidence.accounts [] (c ∷ cs) (λ title found. found)
        (omega arith) e in
    if-cases (λ (o : Outcome). IsBacked (gate6_a evidence ∷ calls) o.0)
      (has_same_titles (sort_candidates (c ∷ cs))) _ _
      (λ same. finish-IsBacked (gate6_a evidence ∷ calls) p ambiguous_demo_account)
      (λ distinct. (evidence, inl refl, AllDemo-sort_candidates evidence.accounts (c ∷ cs) all))

abbrev pub proof_in : Phase → AccountProof → AccountProof
proof_in phase p = record p { phase = phase }

pub accept_gate6_a-IsBacked :
    (calls : List Call) (p : AccountProof) (phase : Phase) (evidence : Gate6AccountListEvidence)
    → IsBacked calls (proof_in phase p)
    → IsBacked (gate6_a evidence ∷ calls) (accept_gate6_a (proof_in phase p) evidence).0
unfolding accept_gate6_a is_terminal conclude
accept_gate6_a-IsBacked calls p gate6_a_ready evidence h =
    elim (Option-cases (validate_evidence evidence)) [
      | inl valid ↦ rw valid (
          settle_candidates-IsBacked evidence calls
            (record (clear_account_identifiers (proof_in gate6_a_ready p)) { safe_candidates = [] })
            (collect evidence.accounts []) refl)
      | inr (d, refuse) ↦ rw refuse (finish-IsBacked (gate6_a evidence ∷ calls) p d)
    ]
accept_gate6_a-IsBacked calls p awaiting_wade evidence h =
    finish-IsBacked (gate6_a evidence ∷ calls) p wrong_phase
accept_gate6_a-IsBacked calls p gate6_b_ready evidence h =
    finish-IsBacked (gate6_a evidence ∷ calls) p wrong_phase
accept_gate6_a-IsBacked calls p account_auth_ready evidence h =
    finish-IsBacked (gate6_a evidence ∷ calls) p wrong_phase
accept_gate6_a-IsBacked calls p complete evidence h =
    Backed-cons (gate6_a evidence) calls complete p.safe_candidates p.volatile_candidates
      p.approved_broker_title p.selected_account_id h
accept_gate6_a-IsBacked calls p terminal evidence h =
    Backed-cons (gate6_a evidence) calls terminal p.safe_candidates p.volatile_candidates
      p.approved_broker_title p.selected_account_id h

pub confirm_wade_selection-IsBacked :
    (calls : List Call) (p : AccountProof) (phase : Phase) (title : Bytes)
    → IsBacked calls (proof_in phase p)
    → IsBacked (confirm title ∷ calls) (confirm_wade_selection (proof_in phase p) title).0
unfolding confirm_wade_selection is_terminal conclude Backed Made
confirm_wade_selection-IsBacked calls p awaiting_wade title (evidence, made, all) =
    if-cases (λ (o : Outcome). IsBacked (confirm title ∷ calls) o.0)
      (not (is_safe_broker_title title)) _ _
      (λ unsafe. finish-IsBacked (confirm title ∷ calls) p wade_selection_rejected)
      (λ safe. elim (Bool-cases (contains_title title p.volatile_candidates)) [
        | inl there ↦
            let demo =
              HasDemo-contains_title evidence.accounts title p.volatile_candidates all there in
            rw there (evidence, inr made, demo, inl refl)
        | inr missing ↦
            rw missing (finish-IsBacked (confirm title ∷ calls) p wade_selection_rejected)
      ])
confirm_wade_selection-IsBacked calls p gate6_a_ready title h =
    finish-IsBacked (confirm title ∷ calls) p wade_selection_rejected
confirm_wade_selection-IsBacked calls p gate6_b_ready title h =
    finish-IsBacked (confirm title ∷ calls) p wade_selection_rejected
confirm_wade_selection-IsBacked calls p account_auth_ready title h =
    finish-IsBacked (confirm title ∷ calls) p wade_selection_rejected
confirm_wade_selection-IsBacked calls p complete title h =
    Backed-cons (confirm title) calls complete p.safe_candidates p.volatile_candidates
      p.approved_broker_title p.selected_account_id h
confirm_wade_selection-IsBacked calls p terminal title h =
    Backed-cons (confirm title) calls terminal p.safe_candidates p.volatile_candidates
      p.approved_broker_title p.selected_account_id h

-- One match is the only demo account of the title.
sole :
    (ids : List ℕ) (match matches : ℕ)
    → match ≡ last_or 0 ids
    → matches ≡ 0 + length ids
    → (matches == 1) ≡ true
    → ids ≡ match ∷ []
sole [] match matches h k e = ground arith
sole (x ∷ []) match matches h k e = rw h refl
sole (x ∷ y ∷ ids) match matches h k e = ground arith

settle_match-IsBacked :
    (evidence : Gate6AccountListEvidence) (calls : List Call) (p : AccountProof)
    (scan : Scan (ℕ × ℕ))
    → Confirmed calls p.approved_broker_title
    → match_accounts p.approved_broker_title evidence.accounts 0 0 ≡ scan
    → IsBacked (gate6_b evidence ∷ calls) (settle_match p scan).0
unfolding Backed Made settle_match
settle_match-IsBacked evidence calls p (rejected d) h e =
    finish-IsBacked (gate6_b evidence ∷ calls) p d
settle_match-IsBacked evidence calls p (scanned (match, matches)) (first, made, demo, confirmed) e =
    let (last, count) =
      match_accounts-title_ids p.approved_broker_title evidence.accounts 0 0 match matches e in
    if-cases (λ (o : Outcome). IsBacked (gate6_b evidence ∷ calls) o.0) (matches == 0) _ _
      (λ none_there. finish-IsBacked (gate6_b evidence ∷ calls) p no_eligible_demo_account)
      (λ some_there. elim (Bool-cases (matches == 1)) [
        | inl one ↦ rw one (
          (first, inr made, demo, inr confirmed),
          (evidence, inl refl, sole _ match matches last count one),
        )
        | inr many ↦ rw many (finish-IsBacked (gate6_b evidence ∷ calls) p ambiguous_demo_account)
      ])

pub accept_gate6_b-IsBacked :
    (calls : List Call) (p : AccountProof) (phase : Phase) (evidence : Gate6AccountListEvidence)
    → IsBacked calls (proof_in phase p)
    → IsBacked (gate6_b evidence ∷ calls) (accept_gate6_b (proof_in phase p) evidence).0
unfolding accept_gate6_b is_terminal conclude Backed
accept_gate6_b-IsBacked calls p gate6_b_ready evidence h =
    if-cases (λ (o : Outcome). IsBacked (gate6_b evidence ∷ calls) o.0)
      (is_empty_title p.approved_broker_title) _ _
      (λ unset. finish-IsBacked (gate6_b evidence ∷ calls) p wrong_phase)
      (λ given. elim (Option-cases (validate_evidence evidence)) [
        | inl valid ↦ rw valid (
            settle_match-IsBacked evidence calls (proof_in gate6_b_ready p)
              (match_accounts p.approved_broker_title evidence.accounts 0 0) h refl)
        | inr (d, refuse) ↦ rw refuse (finish-IsBacked (gate6_b evidence ∷ calls) p d)
      ])
accept_gate6_b-IsBacked calls p gate6_a_ready evidence h =
    finish-IsBacked (gate6_b evidence ∷ calls) p wrong_phase
accept_gate6_b-IsBacked calls p awaiting_wade evidence h =
    finish-IsBacked (gate6_b evidence ∷ calls) p wrong_phase
accept_gate6_b-IsBacked calls p account_auth_ready evidence h =
    finish-IsBacked (gate6_b evidence ∷ calls) p wrong_phase
accept_gate6_b-IsBacked calls p complete evidence h =
    Backed-cons (gate6_b evidence) calls complete p.safe_candidates p.volatile_candidates
      p.approved_broker_title p.selected_account_id h
accept_gate6_b-IsBacked calls p terminal evidence h =
    Backed-cons (gate6_b evidence) calls terminal p.safe_candidates p.volatile_candidates
      p.approved_broker_title p.selected_account_id h
