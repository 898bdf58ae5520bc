-- ===== src/Lifecycle/Trail.antt =====
-- The audit history of an order is a path through the phases of its life.
use native.Mathlib.Decide.{dec_le}
use trade_bot.Base.{ℕ, ◌+◌, ◌≤◌, ◌<◌, true, List, [], ◌∷◌, ◌++◌, ◌≡◌, ◌⊎◌, inl, inr, arith, ◌∙◌}
use trade_bot.Broker.{
  OrderLifecycleState, created, risk_checked, submitted, accepted, partially_filled, filled,
  cancel_requested, canceled, expired, rejected, timeout, unknown, reconciled,
}
use trade_bot.Lifecycle.{
  LifecycleAuditEntry, OrderLifecycleRecord, can_transition, cancelable, is_cancel_requested,
}
use trade_bot.Lifecycle.Effects.{Answers}

-- How far an order has come: created, checked, submitted, at the broker, ended.
abbrev pub phase : OrderLifecycleState → ℕ
phase created = 0
phase risk_checked = 1
phase submitted = 2
phase accepted = 3
phase partially_filled = 3
phase cancel_requested = 3
phase timeout = 3
phase unknown = 3
phase filled = 4
phase canceled = 4
phase expired = 4
phase rejected = 4
phase reconciled = 4

-- An order never goes back, skips neither the risk check nor the submission, and ends once.
abbrev pub Follows : OrderLifecycleState → OrderLifecycleState → Type 0
Follows s t = (phase s ≤ phase t) × (phase s < 2 → phase t ≤ phase s + 1) × (phase s < 4)

pub can_transition-Follows : (s t : OrderLifecycleState) → can_transition s t ≡ true → Follows s t
unfolding can_transition
can_transition-Follows created t h = (ground arith, λ g. ground arith, ground arith)
can_transition-Follows _ t h = (ground arith, λ g. ground arith, ground arith)

asked_phase : (s : OrderLifecycleState) → is_cancel_requested s ≡ true → phase s ≡ 3
unfolding is_cancel_requested
asked_phase s h = ground arith

cancelable_phase : (s : OrderLifecycleState) → cancelable s ≡ true → phase s ≡ 3
unfolding cancelable
cancelable_phase s h = ground arith

-- While a cancel request is pending, the broker's answer ends the order, loses track of it or
-- restores the state before the request.
pub answer-Follows :
    (r : OrderLifecycleRecord) (t : OrderLifecycleState)
    → is_cancel_requested r.state ≡ true
    → cancelable r.pre_cancel_state ≡ true
    → Answers r t
    → Follows r.state t
answer-Follows r t asked guarded a =
    let p = asked_phase r.state asked in
    let q = cancelable_phase r.pre_cancel_state guarded in
    elim a [
      | inl e ↦ rw (p, e) (omega arith, λ g. absurd (omega arith), omega arith)
      | inr (inl (e, _)) ↦ rw (p, e) (omega arith, λ g. absurd (omega arith), omega arith)
      | inr (inr (inl e)) ↦ rw (p, e, q) (omega arith, λ g. absurd (omega arith), omega arith)
      | inr (inr (inr e)) ↦ rw (p, e) (omega arith, λ g. absurd (omega arith), omega arith)
    ]

pub data Trail : List LifecycleAuditEntry → OrderLifecycleState → Type 0 where
  opened :
      (e : LifecycleAuditEntry) (h : List LifecycleAuditEntry) (s : OrderLifecycleState)
      → e.state ≡ created
      → s ≡ created
      → h ≡ e ∷ []
      → Trail h s
  moved :
      (e : LifecycleAuditEntry) (g h : List LifecycleAuditEntry) (s t : OrderLifecycleState)
      → Trail g s
      → Follows s t
      → e.state ≡ t
      → h ≡ g ++ e ∷ []
      → Trail h t

-- A history has an entry in a state.
abbrev pub Visits : OrderLifecycleState → List LifecycleAuditEntry → Type 0
Visits s [] = ⊥
Visits s (e ∷ h) = (e.state ≡ s) ⊎ Visits s h

Visits-before :
    (s : OrderLifecycleState) (g : List LifecycleAuditEntry) (e : LifecycleAuditEntry)
    → Visits s g
    → Visits s (g ++ e ∷ [])
Visits-before s [] e v = absurd v
Visits-before s (f ∷ g) e (inl here) = inl here
Visits-before s (f ∷ g) e (inr there) = inr (Visits-before s g e there)

Visits-last :
    (s : OrderLifecycleState) (g : List LifecycleAuditEntry) (e : LifecycleAuditEntry)
    → e.state ≡ s
    → Visits s (g ++ e ∷ [])
Visits-last s [] e h = inl h
Visits-last s (f ∷ g) e h = inr (Visits-last s g e h)

phase_one : (s : OrderLifecycleState) → phase s ≡ 1 → s ≡ risk_checked
phase_one s h = ground arith

phase_two : (s : OrderLifecycleState) → phase s ≡ 2 → s ≡ submitted
phase_two s h = ground arith

-- An order whose history has come to the broker has entries for the risk check and the submission.
pub Trail-Visits :
    (h : List LifecycleAuditEntry) (s : OrderLifecycleState)
    → Trail h s
    → (1 ≤ phase s → Visits risk_checked h) × (2 ≤ phase s → Visits submitted h)
Trail-Visits h s (opened e _ _ first start whole) =
    (λ p. absurd (zero_phase s start p), λ p. absurd (zero_phase s start (omega arith)))
  where
    zero_phase : (s : OrderLifecycleState) → s ≡ created → ¬ (1 ≤ phase s)
    zero_phase s e p = let p' : 1 ≤ phase created = rw e at p in omega arith
Trail-Visits h t (moved e g _ s _ trail follows entry whole) =
    let before = Trail-Visits g s trail in
    (
      λ p. elim (dec_le 1 (phase s)) [
        | yes q ↦ rw whole (Visits-before risk_checked g e (before.0 q))
        | no q ↦ rw whole (
            Visits-last risk_checked g e
              (entry ∙ phase_one t (omega (arith, follows.1 (omega arith)))))
      ],
      λ p. elim (dec_le 2 (phase s)) [
        | yes q ↦ rw whole (Visits-before submitted g e (before.1 q))
        | no q ↦ rw whole (
            Visits-last submitted g e
              (entry ∙ phase_two t (omega (arith, follows.1 (omega arith)))))
      ],
    )
