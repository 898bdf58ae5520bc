-- ===== src/Lifecycle/Effects.antt =====
-- What an applied call does to the one record that it changes.
use Prim.Native.String.{String}
use trade_bot.Base.{
  ℕ, Bool, true, false, Option, none, some, [], ◌∷◌, ◌++◌, ◌≡◌, ◌⊎◌, inl, inr, refl, arith,
}
use trade_bot.Base.Int.{◌≤ℤ◌}
use trade_bot.Broker.{
  OrderLifecycleState, filled, canceled, cancel_requested, unknown, reconciled, CancelDisposition,
  cancel_accepted, cancel_rejected, already_filled, already_canceled, cancel_unknown,
  OrderAcknowledgement, ExecutionEvent, CancelRequest, CancelResult, Decimal64,
}
use trade_bot.Lifecycle.{
  invalid_event, LifecycleAuditEntry, OrderLifecycleRecord, OrderLifecycleStore, event_is_older,
  can_transition, cancelable, is_cancel_requested, valid_quantities,
}
use trade_bot.Lifecycle.Methods.{Outcome, is_zero, transition}
use trade_bot.Lifecycle.Events.{
  apply_acknowledgement, apply_execution, request_cancel, apply_cancel_result, apply_reconciliation,
  acknowledged_state, executed_state, or_state, cancel_outcome,
}
use trade_bot.Lifecycle.Frame.{Refused, Applied, on_event_frame}

-- The answers of the broker to a cancel request.
abbrev pub Answers : OrderLifecycleRecord → OrderLifecycleState → Type 0
Answers r s =
    (s ≡ canceled)
    ⊎ ((s ≡ filled) × (is_zero r.remaining_quantity ≡ true))
    ⊎ (s ≡ r.pre_cancel_state)
    ⊎ (s ≡ unknown)

-- The change of a record, under a key; only a reconciliation may lower the filled quantity.
pub record Changes (key : String) (reconciles : Bool) (r s : OrderLifecycleRecord) : Type 0 where
  pub same_request : s.request ≡ r.request
  pub moves :
      (can_transition r.state s.state ≡ true)
      ⊎ ((is_cancel_requested r.state ≡ true) × Answers r s.state)
  pub in_order : event_is_older r s.last_timestamp_ns s.last_sequence ≡ false
  pub entry :
      (e : LifecycleAuditEntry) × (s.audit_history ≡ r.audit_history ++ e ∷ [])
      × (e.state ≡ s.state)
      × (e.event_key ≡ key)
  pub quantities :
      ((s.filled_quantity ≡ r.filled_quantity) × (s.remaining_quantity ≡ r.remaining_quantity))
      ⊎ (valid_quantities r s.filled_quantity s.remaining_quantity ≡ true)
  pub fills : (reconciles ≡ true) ⊎ (r.filled_quantity.units ≤ℤ s.filled_quantity.units)
  pub cancels :
      is_cancel_requested s.state ≡ true
      → ((s.pre_cancel_state ≡ r.state) × (cancelable r.state ≡ true))
        ⊎ ((s.pre_cancel_state ≡ r.pre_cancel_state) × (is_cancel_requested r.state ≡ true))

abbrev pub Effect : OrderLifecycleStore → ℕ → String → Bool → Outcome → Type 0
Effect store id key reconciles outcome =
    Refused store outcome ⊎ Applied store id key (Changes key reconciles) outcome

pub transition-Effect :
    (store : OrderLifecycleStore) (id : ℕ) (next : OrderLifecycleState) (key : String) (ts seq : ℕ)
    → is_cancel_requested next ≡ false
    → Effect store id key false (transition store id next key ts seq)
unfolding transition
transition-Effect store id next key ts seq plain =
    on_event_frame store id key _ _ (Changes key false) (λ r e. ground arith)
      λ r e. record {
        same_request = refl;
        moves = inl (ground arith);
        in_order = ground arith;
        entry = (_, refl, refl, refl);
        quantities = inl (refl, refl);
        fills = inr (omega arith);
        cancels = λ c. ground arith;
      }

acknowledged-plain :
    (ack : OrderAcknowledgement) → is_cancel_requested (acknowledged_state ack) ≡ false
unfolding is_cancel_requested
acknowledged-plain ack = ground arith

executed-plain : (event : ExecutionEvent) → is_cancel_requested (executed_state event) ≡ false
unfolding is_cancel_requested
executed-plain event = ground arith

reconciled-plain : is_cancel_requested reconciled ≡ false
unfolding is_cancel_requested
reconciled-plain = refl

pub acknowledgement-Effect :
    (store : OrderLifecycleStore) (ack : OrderAcknowledgement)
    → Effect store ack.local_order_id ack.event_key false (apply_acknowledgement store ack)
unfolding apply_acknowledgement
acknowledgement-Effect store ack =
    on_event_frame store ack.local_order_id ack.event_key _ _ (Changes ack.event_key false)
      (λ r e. ground arith)
      λ r e. record {
        same_request = refl;
        moves = inl (ground arith);
        in_order = ground arith;
        entry = (_, refl, refl, refl);
        quantities = inl (refl, refl);
        fills = inr (omega arith);
        cancels = λ c. cc (acknowledged-plain ack);
      }

pub execution-Effect :
    (store : OrderLifecycleStore) (event : ExecutionEvent)
    → Effect store event.local_order_id event.event_key false (apply_execution store event)
unfolding apply_execution
execution-Effect store event =
    on_event_frame store event.local_order_id event.event_key _ _ (Changes event.event_key false)
      (λ r e. ground arith)
      λ r e. record {
        same_request = refl;
        moves = inl (ground arith);
        in_order = ground arith;
        entry = (_, refl, refl, refl);
        quantities = inr (ground arith);
        fills = inr (ground arith);
        cancels = λ c. cc (executed-plain event);
      }

can_cancel :
    (s : OrderLifecycleState) → can_transition s cancel_requested ≡ true → cancelable s ≡ true
unfolding can_transition
can_cancel s h = ground arith

pub cancel_request-Effect :
    (store : OrderLifecycleStore) (request : CancelRequest)
    → Effect store request.local_order_id request.idempotency_key false
        (request_cancel store request)
unfolding request_cancel
cancel_request-Effect store request =
    on_event_frame store request.local_order_id request.idempotency_key _ _
      (Changes request.idempotency_key false) (λ r e. ground arith)
      λ r e. record {
        same_request = refl;
        moves = inl (ground arith);
        in_order = ground arith;
        entry = (_, refl, refl, refl);
        quantities = inl (refl, refl);
        fills = inr (omega arith);
        cancels = λ c. inl (refl, can_cancel r.state (ground arith));
      }

cancel_outcome-Answers :
    (d : CancelDisposition) (r : OrderLifecycleRecord) (s : OrderLifecycleState)
    → cancel_outcome d r ≡ some s
    → Answers r s
unfolding cancel_outcome
cancel_outcome-Answers cancel_accepted r s h = inl (ground arith)
cancel_outcome-Answers already_canceled r s h = inl (ground arith)
cancel_outcome-Answers already_filled r s h = inr (inl (ground arith, ground arith))
cancel_outcome-Answers cancel_rejected r s h = inr (inr (inl (ground arith)))
cancel_outcome-Answers cancel_unknown r s h = inr (inr (inr (ground arith)))

pub reconciliation-Effect :
    (store : OrderLifecycleStore) (id : ℕ) (resolved : OrderLifecycleState)
    (cumulative rest : Decimal64) (key : String) (ts seq : ℕ)
    → Effect store id key true (apply_reconciliation store id resolved cumulative rest key ts seq)
unfolding apply_reconciliation
reconciliation-Effect store id resolved cumulative rest key ts seq =
    on_event_frame store id key _ _ (Changes key true) (λ r e. ground arith)
      λ r e. record {
        same_request = refl;
        moves = inl (ground arith);
        in_order = ground arith;
        entry = (_, refl, refl, refl);
        quantities = inr (ground arith);
        fills = inl refl;
        cancels = λ c. cc reconciled-plain;
      }

or_state-some :
    (o : Option OrderLifecycleState) (r : OrderLifecycleRecord)
    → (elim o [ none ↦ some invalid_event | some next ↦ none ]) ≡ none
    → (s : OrderLifecycleState) × (o ≡ some s)
or_state-some none r h = cc
or_state-some (some s) r h = (s, refl)

pub cancel_result-Effect :
    (store : OrderLifecycleStore) (result : CancelResult)
    → Effect store result.local_order_id result.event_key false (apply_cancel_result store result)
unfolding apply_cancel_result
cancel_result-Effect store result =
    on_event_frame store result.local_order_id result.event_key _ _ (Changes result.event_key false)
      (λ r e. ground arith)
      λ r e.
        let asked : is_cancel_requested r.state ≡ true = ground arith in
        let (s, outcome) = or_state-some (cancel_outcome result.disposition r) r (ground arith) in
        let same : or_state (cancel_outcome result.disposition r) unknown ≡ s = rw outcome in
        record {
          same_request = refl;
          moves = inr (asked, rw same (cancel_outcome-Answers result.disposition r s outcome));
          in_order = ground arith;
          entry = (_, refl, refl, refl);
          quantities = inl (refl, refl);
          fills = inr (omega arith);
          cancels = λ c. inr (refl, asked);
        }
