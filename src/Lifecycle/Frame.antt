-- ===== src/Lifecycle/Frame.antt =====
-- The frame of the event methods: a call is refused and leaves the store alone, or it applies one
-- change to one record under a new key.
use Prim.Native.String.{String}
use trade_bot.Base.{
  ℕ, false, Option, none, some, ◌∷◌, ◌≡◌, ◌≢◌, ◌⊎◌, inl, inr, ap, sym, ◌∙◌, Bool-cases,
  Option-cases,
}
use trade_bot.Base.Text.{is_empty, contains}
use trade_bot.Lifecycle.{
  LifecycleApplyResult, applied, duplicate, unknown_order, invalid_event, OrderLifecycleRecord,
  OrderLifecycleStore, find, replace,
}
use trade_bot.Lifecycle.Methods.{Outcome, on_event}
use trade_bot.Lifecycle.Records.{record_event_key-new}

abbrev pub Refused : OrderLifecycleStore → Outcome → Type 0
Refused store outcome = (outcome.0 ≡ store) × (outcome.1 ≢ applied)

-- The store after a change of one record.
abbrev pub commit : OrderLifecycleStore → ℕ → String → OrderLifecycleRecord → OrderLifecycleStore
commit store id key r = record {
  records = replace id r store.records;
  applied_event_keys = key ∷ store.applied_event_keys;
}

pub record Applied (store : OrderLifecycleStore) (id : ℕ) (key : String)
    (Allows : OrderLifecycleRecord → OrderLifecycleRecord → Type 0) (outcome : Outcome)
    : Type 0 where
  pub before : OrderLifecycleRecord
  pub after : OrderLifecycleRecord
  pub found : find store id ≡ some before
  pub fresh : contains key store.applied_event_keys ≡ false
  pub allowed : Allows before after
  pub result : outcome ≡ (commit store id key after, applied)

Refused-as :
    (store : OrderLifecycleStore) (outcome : Outcome) (result : LifecycleApplyResult)
    → outcome ≡ (store, result)
    → result ≢ applied
    → Refused store outcome
Refused-as store outcome result e h =
    (ap (λ (o : Outcome). o.0) e, λ a. h (sym (ap (λ (o : Outcome). o.1) e) ∙ a))

pub on_event_frame :
    (store : OrderLifecycleStore) (id : ℕ) (key : String)
    (refusal : OrderLifecycleRecord → Option LifecycleApplyResult)
    (change : OrderLifecycleRecord → OrderLifecycleRecord)
    (Allows : OrderLifecycleRecord → OrderLifecycleRecord → Type 0)
    → ((r : OrderLifecycleRecord) → refusal r ≢ some applied)
    → ((r : OrderLifecycleRecord) → refusal r ≡ none → Allows r (change r))
    → Refused store (on_event store id key refusal change)
      ⊎ Applied store id key Allows (on_event store id key refusal change)
unfolding on_event
on_event_frame store id key refusal change Allows honest allows =
    elim (Option-cases (find store id)) [
      | inl absent ↦ inl (Refused-as store _ unknown_order (rw (absent, on_event)) (λ e. cc))
      | inr (r, present) ↦ elim (Bool-cases (is_empty key)) [
        | inl empty ↦
            inl (Refused-as store _ invalid_event (rw (present, on_event) (rw empty)) (λ e. cc))
        | inr named ↦ elim (Bool-cases (contains key store.applied_event_keys)) [
          | inl old ↦
              inl
                (Refused-as store _ duplicate (rw (present, on_event) (rw (named, old))) (λ e. cc))
          | inr fresh ↦ elim (Option-cases (refusal r)) [
            | inr (result, refused) ↦ inl (
                Refused-as store _ result
                  (rw (present, on_event) (rw (named, fresh) (rw (refused, on_event))))
                  (λ e. honest r (refused ∙ ap some e)))
            | inl passes ↦ inr (record {
              before = r;
              after = change r;
              found = present;
              fresh = fresh;
              allowed = allows r passes;
              result =
                  rw (present, on_event)
                    (rw (named, fresh)
                      (rw (passes, on_event)
                        (rw (record_event_key-new key store.applied_event_keys named fresh))));
            })
          ]
        ]
      ]
    ]
