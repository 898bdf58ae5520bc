-- ===== src/Lifecycle/Calls.antt =====
-- Every call of an event method is refused, or it changes the one record that it names.
use Prim.Native.String.{String}
use trade_bot.Base.{ℕ, Bool, true, false, some, List, [], ◌∷◌, ◌++◌, ◌≡◌, inl, inr, refl, ap, ◌∙◌}
use trade_bot.Broker.{FailureCategory, risk_checked, submitted, timeout, unknown}
use trade_bot.Lifecycle.{
  applied, LifecycleAuditEntry, OrderLifecycleRecord, OrderLifecycleStore, find,
  is_cancel_requested,
}
use trade_bot.Lifecycle.Methods.{
  Outcome, mark_risk_checked, mark_submitted, mark_timeout, mark_unknown, annotate, annotate_last,
  annotate_applied,
}
use trade_bot.Lifecycle.Events.{
  Call, risk_check, submission, time_out, loss, acknowledgement, execution, cancel_request,
  cancel_result, reconciliation, apply, order_of, key_of,
}
use trade_bot.Lifecycle.Records.{lookup-replace_self, replace-replace}
use trade_bot.Lifecycle.Frame.{Refused, commit}
use trade_bot.Lifecycle.Effects.{
  Changes, Effect, transition-Effect, acknowledgement-Effect, execution-Effect,
  cancel_request-Effect, cancel_result-Effect, reconciliation-Effect,
}

annotate_last-append :
    (category : FailureCategory) (text : String) (h : List LifecycleAuditEntry)
    (e : LifecycleAuditEntry)
    → annotate_last category text (h ++ e ∷ [])
      ≡ h ++ record e { failure = category; reason = text } ∷ []
unfolding annotate_last
annotate_last-append category text [] e = refl
annotate_last-append category text (f ∷ []) e = refl
annotate_last-append category text (f ∷ g ∷ h) e =
    ap (◌∷◌ f) (annotate_last-append category text (g ∷ h) e)

annotate-Changes :
    (category : FailureCategory) (text key : String) (reconciles : Bool)
    (r s : OrderLifecycleRecord)
    → Changes key reconciles r s
    → Changes key reconciles r (annotate category text s)
unfolding annotate
annotate-Changes category text key reconciles r s c =
    let (e, grown, state, named) = c.entry in
    record {
      same_request = c.same_request;
      moves = c.moves;
      in_order = c.in_order;
      entry = (
        record e { failure = category; reason = text },
        ap (annotate_last category text) grown
            ∙ annotate_last-append category text r.audit_history e,
        state,
        named,
      );
      quantities = c.quantities;
      fills = c.fills;
      cancels = c.cancels;
    }

annotate_applied-Refused :
    (store : OrderLifecycleStore) (id : ℕ) (category : FailureCategory) (text : String)
    (outcome : Outcome)
    → Refused store outcome
    → Refused store (annotate_applied id category text outcome)
unfolding annotate_applied
annotate_applied-Refused store id category text (s, applied) r = absurd (r.1 refl)
annotate_applied-Refused store id category text (s, _) r = r

annotate_applied-commit :
    (store : OrderLifecycleStore) (id : ℕ) (key : String) (category : FailureCategory)
    (text : String) (old r : OrderLifecycleRecord)
    → find store id ≡ some old
    → annotate_applied id category text (commit store id key r, applied)
      ≡ (commit store id key (annotate category text r), applied)
unfolding annotate_applied
annotate_applied-commit store id key category text old r found =
    let written = lookup-replace_self id r old store.records (unfold find in found) in
    rw (written, annotate_applied)
      (rw (replace-replace id (annotate category text r) r store.records))

loss-Effect :
    (store : OrderLifecycleStore) (id : ℕ) (key : String) (category : FailureCategory)
    (text : String) (ts seq : ℕ)
    → Effect store id key false (mark_unknown store id key category text ts seq)
unfolding mark_unknown
loss-Effect store id key category text ts seq =
    elim (transition-Effect store id unknown key ts seq plain) [
      | inl refused ↦ inl (annotate_applied-Refused store id category text _ refused)
      | inr a ↦ inr (record {
        before = a.before;
        after = annotate category text a.after;
        found = a.found;
        fresh = a.fresh;
        allowed = annotate-Changes category text key false a.before a.after a.allowed;
        result =
            ap (annotate_applied id category text) a.result
            ∙ annotate_applied-commit store id key category text a.before a.after a.found;
      })
    ]
  where
    plain : is_cancel_requested unknown ≡ false
    plain = unfold is_cancel_requested in refl

-- Whether a call is a reconciliation.
abbrev pub reconciles : Call → Bool
reconciles (reconciliation id resolved cumulative rest key ts seq) = true
reconciles _ = false

pub apply-Effect :
    (call : Call) (store : OrderLifecycleStore)
    → Effect store (order_of call) (key_of call) (reconciles call) (apply call store)
unfolding apply mark_risk_checked mark_submitted mark_timeout is_cancel_requested
apply-Effect (risk_check id key ts seq) store =
    transition-Effect store id risk_checked key ts seq refl
apply-Effect (submission id key ts seq) store = transition-Effect store id submitted key ts seq refl
apply-Effect (time_out id key ts seq) store = transition-Effect store id timeout key ts seq refl
apply-Effect (loss id key category text ts seq) store =
    loss-Effect store id key category text ts seq
apply-Effect (acknowledgement ack) store = acknowledgement-Effect store ack
apply-Effect (execution event) store = execution-Effect store event
apply-Effect (cancel_request request) store = cancel_request-Effect store request
apply-Effect (cancel_result result) store = cancel_result-Effect store result
apply-Effect (reconciliation id resolved cumulative rest key ts seq) store =
    reconciliation-Effect store id resolved cumulative rest key ts seq
