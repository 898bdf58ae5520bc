-- ===== src/Gate6/Runs.antt =====
-- A completed account proof was approved.
use trade_bot.Base.{
  List, [], ap, arith, if-cases, if◌then◌else◌, inl, inr, refl, subst, ◌&&◌, ◌<◌, ◌∷◌, ◌≡◌, ◌⊎◌,
}
use trade_bot.Base.Int.{eqb_ℤ, pos, ℤ}
use trade_bot.Financial.Units.{is_positive}
use trade_bot.Gate6.{
  AccountProof, Gate6Decision, Phase, account_auth_ready, account_authentication_mismatch,
  already_terminal, awaiting_wade, cancelled, complete, gate6_a_ready, gate6_b_ready, new_proof,
  resource_exhausted, terminal,
}
use trade_bot.Gate6.Steps.{
  Outcome, accept_account_authentication, cancel, clear_all, conclude, finish, interrupted,
  is_terminal,
}
use trade_bot.Gate6.Calls.{
  Call, apply, authenticate, cancels, confirm, gate6_a, gate6_b, interrupts, run,
}
use trade_bot.Gate6.Approval.{
  Approved, Backed, Backed-cons, Erased, IsBacked, Made, finish-IsBacked,
}
use trade_bot.Gate6.Backing.{
  accept_gate6_a-IsBacked, accept_gate6_b-IsBacked, confirm_wade_selection-IsBacked, proof_in,
}

accept_account_authentication-IsBacked :
    (calls : List Call) (p : AccountProof) (phase : Phase) (response : ℤ)
    → IsBacked calls (proof_in phase p)
    → IsBacked
        (authenticate response ∷ calls)
        (accept_account_authentication (proof_in phase p) response).0
unfolding accept_account_authentication is_terminal conclude clear_all Backed Made
accept_account_authentication-IsBacked calls p account_auth_ready response h =
    if-cases (λ (o : Outcome). IsBacked (authenticate response ∷ calls) o.0)
      (is_positive response && eqb_ℤ response (pos p.selected_account_id)) _ _
      (λ matched.
        let ((first, made, demo, confirmed), (second, made', ids)) = h in
        let same : response ≡ pos p.selected_account_id = ground (arith, matched) in
        let positive : 0 < p.selected_account_id = ground (arith, matched) in
        (
          (
            p.approved_broker_title,
            p.selected_account_id,
            ((first, inr made, demo, inr confirmed), (second, inr made', ids)),
            inl (ap authenticate same),
            positive,
          ),
          (refl, refl, refl, refl),
        ))
      (λ mismatched.
        finish-IsBacked (authenticate response ∷ calls) p account_authentication_mismatch)
accept_account_authentication-IsBacked calls p gate6_a_ready response h =
    finish-IsBacked (authenticate response ∷ calls) p account_authentication_mismatch
accept_account_authentication-IsBacked calls p awaiting_wade response h =
    finish-IsBacked (authenticate response ∷ calls) p account_authentication_mismatch
accept_account_authentication-IsBacked calls p gate6_b_ready response h =
    finish-IsBacked (authenticate response ∷ calls) p account_authentication_mismatch
accept_account_authentication-IsBacked calls p complete response h =
    Backed-cons (authenticate response) calls complete p.safe_candidates p.volatile_candidates
      p.approved_broker_title p.selected_account_id h
accept_account_authentication-IsBacked calls p terminal response h =
    Backed-cons (authenticate response) calls terminal p.safe_candidates p.volatile_candidates
      p.approved_broker_title p.selected_account_id h

ending-IsBacked :
    (calls : List Call) (call : Call) (p : AccountProof) (d : Gate6Decision)
    → IsBacked calls p
    → IsBacked (call ∷ calls) (if is_terminal p then conclude p already_terminal else finish p d).0
unfolding conclude
ending-IsBacked calls call p d h =
    if-cases (λ (o : Outcome). IsBacked (call ∷ calls) o.0) (is_terminal p) _ _
      (λ ended.
        Backed-cons call calls p.phase p.safe_candidates p.volatile_candidates
          p.approved_broker_title p.selected_account_id h)
      (λ open_still. finish-IsBacked (call ∷ calls) p d)

apply-IsBacked :
    (calls : List Call) (p : AccountProof) (call : Call)
    → IsBacked calls p
    → IsBacked (call ∷ calls) (apply p call).0
unfolding apply cancel interrupted
apply-IsBacked calls p (gate6_a evidence) h = accept_gate6_a-IsBacked calls p p.phase evidence h
apply-IsBacked calls p (confirm title) h = confirm_wade_selection-IsBacked calls p p.phase title h
apply-IsBacked calls p (gate6_b evidence) h = accept_gate6_b-IsBacked calls p p.phase evidence h
apply-IsBacked calls p (authenticate response) h =
    accept_account_authentication-IsBacked calls p p.phase response h
apply-IsBacked calls p cancels h = ending-IsBacked calls cancels p cancelled h
apply-IsBacked calls p interrupts h = ending-IsBacked calls interrupts p resource_exhausted h

-- The calls made so far, the latest first.
abbrev made_so_far : List Call → List Call → List Call
made_so_far [] past = past
made_so_far (call ∷ calls) past = made_so_far calls (call ∷ past)

Made-made_so_far :
    (call : Call) (calls past : List Call)
    → Made call (made_so_far calls past)
    → Made call calls ⊎ Made call past
unfolding Made
Made-made_so_far call [] past h = inr h
Made-made_so_far call (c ∷ calls) past h = elim (Made-made_so_far call calls (c ∷ past) h) [
  | inl later ↦ inl (inr later)
  | inr (inl now) ↦ inl (inl now)
  | inr (inr before) ↦ inr before
]

Made-anywhere :
    (call : Call) (calls : List Call) → Made call (made_so_far calls []) → Made call calls
unfolding Made
Made-anywhere call calls h = elim (Made-made_so_far call calls [] h) [
  | inl made ↦ made
  | inr nothing ↦ absurd (omega arith)
]

run-IsBacked :
    (calls past : List Call) (p : AccountProof)
    → IsBacked past p
    → IsBacked (made_so_far calls past) (run p calls)
unfolding run
run-IsBacked [] past p h = h
run-IsBacked (call ∷ calls) past p h =
    run-IsBacked calls (call ∷ past) (apply p call).0 (apply-IsBacked past p call h)

-- An account proof that is complete after any sequence of calls has seen, among these calls: an
-- account list with a demo account of some title, the confirmation of that title, an account list
-- in which exactly one demo account has that title, and the broker's answer with the identifier of
-- that account, which is positive. Neither a candidate, to be shown or kept, nor a title nor an
-- identifier is then left in the proof.
pub run-Approved :
    (calls : List Call)
    → (run new_proof calls).phase ≡ complete
    → Approved calls
      × Erased
          (run new_proof calls).safe_candidates
          (run new_proof calls).volatile_candidates
          (run new_proof calls).approved_broker_title
          (run new_proof calls).selected_account_id
unfolding Backed
run-Approved calls done =
    let p : AccountProof = run new_proof calls in
    let backed : Backed (made_so_far calls []) p.phase p.safe_candidates p.volatile_candidates
        p.approved_broker_title p.selected_account_id =
      run-IsBacked calls [] new_proof (omega arith) in
    let (
      (t, i, ((first, made, demo, confirmed), (second, made', ids)), answered, positive),
      erased,
    ) =
      subst
        (λ phase.
          Backed (made_so_far calls []) phase p.safe_candidates p.volatile_candidates
            p.approved_broker_title p.selected_account_id)
        done backed in
    (
      (
        t,
        i,
        (
          (first, Made-anywhere _ calls made, demo, Made-anywhere _ calls confirmed),
          (second, Made-anywhere _ calls made', ids),
        ),
        Made-anywhere _ calls answered,
        positive,
      ),
      erased,
    )
