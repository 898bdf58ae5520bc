-- ===== src/TriggerOrders/Firing.antt =====
-- Which orders `evaluate` reports.
use Prim.Native.String.{String}
use trade_bot.Base.{
  Bool, Bool-cases, List, [], ap, arith, if◌then◌else◌, inl, inr, length, length-map, map, refl,
  sym, ℕ, ◌&&◌, ◌++◌, ◌||◌, ◌∙◌, ◌∷◌, ◌≡◌,
}
use trade_bot.Base.Text.{str_eq}
use trade_bot.Float.{FloatingPoint}
use trade_bot.TriggerOrders.{BestQuote, OrderSlot, TriggerFillEvent, TriggerOrderManager, is_oco}
use trade_bot.TriggerOrders.Evaluation.{evaluate, evaluate_slots, events_of, reason_of}

module _ (fp : FloatingPoint) where
  open fp use {le}

  -- The price that the position would be left at has reached the stop.
  abbrev stop_hit : OrderSlot fp → BestQuote fp → Bool
  stop_hit slot bbo =
      if slot.is_buy then le slot.stop_price bbo.ask_price else le bbo.bid_price slot.stop_price

  -- A bracket's target is reached on the other side of the book.
  abbrev target_hit : OrderSlot fp → BestQuote fp → Bool
  target_hit slot bbo =
      is_oco fp slot.order_type
      && (if slot.is_buy
          then le bbo.bid_price slot.take_profit_price
          else le slot.take_profit_price bbo.ask_price)

  abbrev pub fires : String → BestQuote fp → OrderSlot fp → Bool
  fires symbol bbo slot =
      slot.in_use && str_eq slot.symbol symbol && (stop_hit slot bbo || target_hit slot bbo)

  -- The identities of the orders that fire, in the order of the slots.
  unfoldable pub fired : String → BestQuote fp → List (OrderSlot fp) → List ℕ
  fired symbol bbo [] = []
  fired symbol bbo (slot ∷ slots) =
      let rest = fired symbol bbo slots in
      if fires symbol bbo slot then slot.order_id ∷ rest else rest

  abbrev pub event_ids : List (TriggerFillEvent fp) → List ℕ
  event_ids events = map (λ event. event.order_id) events

  slot_events :
      (slot : OrderSlot fp) (bbo : BestQuote fp) (timestamp : ℕ) (rest : List (TriggerFillEvent fp))
      → event_ids (events_of fp slot bbo timestamp (reason_of fp slot bbo) ++ rest) ≡ (
          if stop_hit slot bbo || target_hit slot bbo
          then slot.order_id ∷ event_ids rest
          else event_ids rest)
  unfolding reason_of
  slot_events slot bbo timestamp rest = ground arith

  evaluate_slots-fired :
      (symbol : String) (bbo : BestQuote fp) (timestamp : ℕ) (slots : List (OrderSlot fp))
      → event_ids (evaluate_slots fp symbol bbo timestamp slots) ≡ fired symbol bbo slots
  unfolding evaluate_slots fired
  evaluate_slots-fired symbol bbo timestamp [] = refl
  evaluate_slots-fired symbol bbo timestamp (slot ∷ slots) =
      let rest = evaluate_slots-fired symbol bbo timestamp slots in
      let here = slot_events slot bbo timestamp (evaluate_slots fp symbol bbo timestamp slots) in
      elim (Bool-cases slot.in_use) [
        | inr idle ↦ rw idle rest
        | inl busy ↦ elim (Bool-cases (str_eq slot.symbol symbol)) [
          | inr other ↦ rw (busy, other) rest
          | inl same ↦ rw (busy, same) (rw rest at here)
        ]
      ]

  -- On a valid quote the events are those of the orders in use for the symbol whose stop is hit, or
  -- whose target is when they are brackets, one for each and in the order of the slots; their number
  -- is returned. On an invalid quote there are none.
  pub evaluate-fired :
      (m : TriggerOrderManager fp) (symbol : String) (bbo : BestQuote fp) (timestamp : ℕ)
      → (event_ids (evaluate fp m symbol bbo timestamp).0
          ≡ (if bbo.valid then fired symbol bbo m.slots else []))
        × ((evaluate fp m symbol bbo timestamp).1
            ≡ length (if bbo.valid then fired symbol bbo m.slots else []))
  unfolding evaluate fired
  evaluate-fired m symbol bbo timestamp =
      let all = evaluate_slots-fired symbol bbo timestamp m.slots in
      elim (Bool-cases bbo.valid) [
        | inr invalid ↦ rw invalid (refl, refl)
        | inl valid ↦ rw valid (
          all,
          sym (length-map _ (evaluate_slots fp symbol bbo timestamp m.slots)) ∙ ap length all,
        )
      ]
