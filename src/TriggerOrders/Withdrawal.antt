-- ===== src/TriggerOrders/Withdrawal.antt =====
-- An order that is placed and cancelled leaves the manager as it was.
use trade_bot.Base.{
  Bool, Bool-cases, List, Option, [], ap, arith, false, get_elem-set, get_elem?, if◌then◌else◌, inl,
  inr, length, ltb, none, refl, set, set-set, some, subst, suc, sym, true, zero, ℕ, ◌&&◌, ◌+◌, ◌-◌,
  ◌<◌, ◌==◌, ◌∙◌, ◌∷◌, ◌≡◌, ◌≢◌,
}
use trade_bot.Float.{FloatingPoint}
use trade_bot.TriggerOrders.{
  OrderSlot, Placement, TriggerOrderManager, cancel, empty_slot, find_order, is_refused, next_id,
  place_order, placed_ts_of, release_at, release_slot, take_slot, taken_slot,
}
use trade_bot.TriggerOrders.Slots.{AllFree, IsConsistent, get_elem-lt, used}
use trade_bot.TriggerOrders.Runs.{next_id-lt}

module _ (fp : FloatingPoint) where
  occupied : (b : Bool) (x : Option ℕ) (i : ℕ) → b ≡ true → (if b then some i else x) ≢ none
  occupied b x i h e = ground (arith, h, e)

  find_order-set :
      (slots : List (OrderSlot fp)) (i j id : ℕ) (new : OrderSlot fp)
      → find_order fp j id slots ≡ none
      → new.in_use ≡ true
      → new.order_id ≡ id
      → i < length slots
      → find_order fp j id (set slots i new) ≡ some (j + i)
  unfolding find_order
  find_order-set [] i j id new h busy same within = absurd (omega arith)
  find_order-set (s ∷ slots) zero j id new h busy same within =
      let test : (new.in_use && (new.order_id == id)) ≡ true = ground (arith, busy, same) in
      rw test (ap some (omega arith))
  find_order-set (s ∷ slots) (suc i) j id new h busy same within =
      elim (Bool-cases (s.in_use && (s.order_id == id))) [
        | inl here ↦
            absurd
              (occupied (s.in_use && (s.order_id == id)) (find_order fp (suc j) id slots) j here h)
        | inr elsewhere ↦ rw elsewhere (
            find_order-set slots i (suc j) id new (rw elsewhere at h) busy same (omega arith)
            ∙ ap some (omega arith))
      ]

  released :
      (m : TriggerOrderManager fp) (slots : List (OrderSlot fp)) (i : ℕ) (free : List ℕ)
      (id count : ℕ) (new : OrderSlot fp)
      → get_elem? slots i ≡ some new
      → new.in_use ≡ true
      → set slots i (empty_slot fp) ≡ m.slots
      → i ∷ free ≡ m.free_idx
      → count ≡ m.active_count + 1
      → release_at fp
          (record { slots = slots; free_idx = free; next_order_id = id; active_count = count })
          i
          (get_elem? slots i)
        ≡ record m { next_order_id = id }
  released m slots i free id count new there busy back refree bump =
      let positive : ltb 0 count ≡ true = ground (arith, bump) in
      let less : count - 1 ≡ m.active_count = omega (arith, bump) in
      rw (there, busy, positive, back, refree, less) refl

  -- Of a manager that is consistent, has a free slot, and has no order of the identity that comes
  -- next: an order that is not refused can be cancelled under the identity that placing it returned,
  -- and the manager is then the one before but for the identity that comes next.
  pub cancel-place_order :
      (m : TriggerOrderManager fp) (order : Placement fp) (i : ℕ) (is : List ℕ)
      → IsConsistent fp m
      → m.free_idx ≡ i ∷ is
      → is_refused fp order ≡ false
      → find_order fp 0 m.next_order_id m.slots ≡ none
      → cancel fp (place_order fp m order).0 (place_order fp m order).1
        ≡ (record m { next_order_id = next_id m.next_order_id }, true)
  unfolding place_order take_slot cancel release_slot AllFree
  cancel-place_order m order i is good free accepted fresh =
      let all : AllFree fp m.slots (i ∷ is) = subst (AllFree fp m.slots) free good.all_free in
      let new : OrderSlot fp =
        taken_slot fp order m.next_order_id (placed_ts_of fp (get_elem? m.slots i)) in
      let within = get_elem-lt fp m.slots i (empty_slot fp) (all.0) in
      let found = find_order-set m.slots i 0 m.next_order_id new fresh refl refl within in
      let there = get_elem-set m.slots i new within in
      let back = set-set m.slots i new (empty_slot fp) (all.0) in
      let divided : suc (length is) + used fp m.slots ≡ length m.slots =
        subst (λ js. length js + used fp m.slots ≡ length m.slots) free good.divided in
      let bump = next_id-lt fp m.active_count (omega (arith, divided, good.small, good.counted)) in
      let next : TriggerOrderManager fp = record {
        slots = set m.slots i new;
        free_idx = is;
        next_order_id = next_id m.next_order_id;
        active_count = next_id m.active_count;
      } in
      let placed : place_order fp m order ≡ (next, m.next_order_id) = rw (accepted, free) refl in
      let at_i : find_order fp 0 m.next_order_id (set m.slots i new) ≡ some i =
        found ∙ ap some (omega arith) in
      let undone =
        released m (set m.slots i new) i is (next_id m.next_order_id) (next_id m.active_count) new
          there refl back (sym free) bump in
      let cancelled_next : cancel fp next m.next_order_id
          ≡ (record m { next_order_id = next_id m.next_order_id }, true) =
        rw (at_i, cancel) (ap (λ r. (r, true)) undone) in
      subst (λ r. cancel fp r.0 r.1 ≡ (record m { next_order_id = next_id m.next_order_id }, true))
        (sym placed) cancelled_next
