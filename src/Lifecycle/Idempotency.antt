-- ===== src/Lifecycle/Idempotency.antt =====
-- An event is applied at most once, changes at most the order that it names, and leaves an order
-- that has ended alone.
use Prim.Native.String.{String}
use native.Mathlib.Decide.{ℕ_discrete}
use mathlib.Core.Option.{some-injective}
use trade_bot.Broker.{OrderLifecycleState}
use trade_bot.Base.{
  List, [], ◌∷◌, ℕ, Bool, true, false, none, some, ◌≡◌, ◌≢◌, ◌⊎◌, inl, inr, ap, sym, ◌∙◌, arith,
}
use trade_bot.Base.Text.{contains}
use trade_bot.Lifecycle.{
  applied, OrderLifecycleRecord, OrderLifecycleStore, find, is_terminal, can_transition,
  is_cancel_requested,
}
use trade_bot.Lifecycle.Methods.{Outcome}
use trade_bot.Lifecycle.Events.{Call, apply, order_of, key_of}
use trade_bot.Lifecycle.Records.{lookup-replace_ne, contains-cons_self, contains-cons}
use trade_bot.Lifecycle.Frame.{Refused, commit}
use trade_bot.Lifecycle.Effects.{Changes}
use trade_bot.Lifecycle.Calls.{apply-Effect, reconciles}

-- What an applied call does to the store around its order.
pub record Recorded (call : Call) (store : OrderLifecycleStore) (outcome : Outcome) : Type 0 where
  pub was_applied : outcome.1 ≡ applied
  pub known : find store (order_of call) ≢ none
  pub fresh : contains (key_of call) store.applied_event_keys ≡ false
  pub recorded : contains (key_of call) outcome.0.applied_event_keys ≡ true
  pub others : (j : ℕ) → order_of call ≢ j → find outcome.0 j ≡ find store j
  pub kept :
      (k : String)
      → contains k store.applied_event_keys ≡ true
      → contains k outcome.0.applied_event_keys ≡ true

-- A call that is not applied leaves the store as it was. One that is applied names a known order
-- and a key that was not recorded before and is recorded after, leaves every other order as it was,
-- and forgets no key.
pub apply_atomic :
    (call : Call) (store : OrderLifecycleStore)
    → Refused store (apply call store) ⊎ Recorded call store (apply call store)
unfolding find
apply_atomic call store = elim (apply-Effect call store) [
  | inl refused ↦ inl refused
  | inr a ↦
      let written : (apply call store).0 ≡ commit store (order_of call) (key_of call) a.after =
        ap (λ (o : Outcome). o.0) a.result in
      inr (record {
        was_applied = ap (λ (o : Outcome). o.1) a.result;
        known = (λ e. cc (a.found));
        fresh = a.fresh;
        recorded = rw written (contains-cons_self (key_of call) store.applied_event_keys);
        others = (λ j h. rw written (lookup-replace_ne (order_of call) j a.after store.records h));
        kept = λ k h. rw written (contains-cons (key_of call) k store.applied_event_keys h);
      })
]

recorded-Refused :
    (call : Call) (store : OrderLifecycleStore)
    → contains (key_of call) store.applied_event_keys ≡ true
    → Refused store (apply call store)
recorded-Refused call store old = elim (apply-Effect call store) [
  | inl refused ↦ refused
  | inr a ↦ cc (a.fresh)
]

-- A sequence of calls.
unfoldable pub run : List Call → OrderLifecycleStore → OrderLifecycleStore
run [] store = store
run (call ∷ calls) store = run calls (apply call store).0

run-kept :
    (calls : List Call) (store : OrderLifecycleStore) (k : String)
    → contains k store.applied_event_keys ≡ true
    → contains k (run calls store).applied_event_keys ≡ true
unfolding run
run-kept [] store k h = h
run-kept (call ∷ calls) store k h = elim (apply_atomic call store) [
  | inl refused ↦ run-kept calls (apply call store).0 k (rw (refused.0) h)
  | inr a ↦ run-kept calls (apply call store).0 k (a.kept k h)
]

-- After a call has been applied, and after any further calls, every call under the same key, of
-- whatever method and for whatever order, is refused and leaves the store as it is.
pub apply_once :
    (first second : Call) (between : List Call) (store : OrderLifecycleStore)
    → key_of first ≡ key_of second
    → (apply first store).1 ≡ applied
    → let later = run between (apply first store).0 in Refused later (apply second later)
apply_once first second between store same done = elim (apply_atomic first store) [
  | inl refused ↦ absurd (refused.1 done)
  | inr a ↦
      recorded-Refused second _
        (run-kept between (apply first store).0 (key_of second) (rw (← same) (a.recorded)))
]

ended-asked : (s : OrderLifecycleState) → is_terminal s ≡ true → is_cancel_requested s ≡ false
unfolding is_terminal is_cancel_requested
ended-asked s h = ground arith

ended-moves : (s t : OrderLifecycleState) → is_terminal s ≡ true → can_transition s t ≡ false
unfolding can_transition
ended-moves s t h = rw h

terminal-stays :
    (r s : OrderLifecycleRecord) (key : String) (b : Bool)
    → is_terminal r.state ≡ true
    → ¬ Changes key b r s
terminal-stays r s key b ended c = elim c.moves [
  | inl moved ↦ cc (ended-moves r.state s.state ended, moved)
  | inr (asked, _) ↦ cc (ended-asked r.state ended, asked)
]

pub other_stays :
    (call : Call) (store : OrderLifecycleStore) (id : ℕ) (r : OrderLifecycleRecord)
    → order_of call ≢ id
    → Refused store (apply call store) ⊎ Recorded call store (apply call store)
    → find store id ≡ some r
    → find (apply call store).0 id ≡ some r
other_stays call store id r other (inl refused) found = rw (refused.0) found
other_stays call store id r other (inr a) found = a.others id other ∙ found

apply-is_terminal :
    (call : Call) (store : OrderLifecycleStore) (id : ℕ) (r : OrderLifecycleRecord)
    → find store id ≡ some r
    → is_terminal r.state ≡ true
    → find (apply call store).0 id ≡ some r
apply-is_terminal call store id r found ended = elim (apply-Effect call store) [
  | inl refused ↦ rw (refused.0) found
  | inr a ↦ elim (ℕ_discrete (order_of call) id) [
    | yes same ↦
        let named : find store (order_of call) ≡ some r = rw same found in
        let ours : a.before ≡ r = some-injective a.before r (sym a.found ∙ named) in
        absurd (
          terminal-stays a.before a.after (key_of call) (reconciles call) (rw ours ended) a.allowed)
    | no other ↦ other_stays call store id r other (apply_atomic call store) found
  ]
]

-- An order in a terminal state is never changed again: whatever calls follow, the store still holds
-- the same record for it.
pub run-is_terminal :
    (calls : List Call) (store : OrderLifecycleStore) (id : ℕ) (r : OrderLifecycleRecord)
    → find store id ≡ some r
    → is_terminal r.state ≡ true
    → find (run calls store) id ≡ some r
unfolding run
run-is_terminal [] store id r found ended = found
run-is_terminal (call ∷ calls) store id r found ended =
    run-is_terminal calls (apply call store).0 id r (apply-is_terminal call store id r found ended)
      ended
