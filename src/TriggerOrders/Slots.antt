-- ===== src/TriggerOrders/Slots.antt =====
-- Slots in use and free indices.
use mathlib.Core.Bool.{true≢false}
use trade_bot.Base.{
  Bool, List, [], ap, arith, false, get_elem-set-other, get_elem?, length, refl, set, some,
  some_injective, suc, sym, true, zero, ℕ, ◌+◌, ◌<◌, ◌^◌, ◌∙◌, ◌∷◌, ◌≡◌, ◌≢◌, ◌≤◌,
}
use trade_bot.Float.{FloatingPoint}
use trade_bot.TriggerOrders.{
  OrderSlot, TriggerOrderManager, empty_slot, empty_slots, free_indices, new_manager,
}

module _ (fp : FloatingPoint) where
  abbrev bit : Bool → ℕ
  bit true = 1
  bit false = 0

  -- The number of slots in use.
  unfoldable pub used : List (OrderSlot fp) → ℕ
  used [] = 0
  used (slot ∷ slots) = bit slot.in_use + used slots

  unfoldable pub NotIn : ℕ → List ℕ → Type 0
  NotIn i [] = 0 ≤ 0
  NotIn i (j ∷ js) = (i ≢ j) × NotIn i js

  -- The free indices are those of different empty slots.
  unfoldable pub AllFree : List (OrderSlot fp) → List ℕ → Type 0
  unfolding NotIn
  AllFree slots [] = 0 ≤ 0
  AllFree slots (i ∷ is) =
      (get_elem? slots i ≡ some (empty_slot fp)) × NotIn i is × AllFree slots is

  -- What a manager keeps between two calls.
  pub record IsConsistent (m : TriggerOrderManager fp) : Type 0 where
    pub all_free : AllFree m.slots m.free_idx
    pub counted : m.active_count ≡ used m.slots
    pub divided : length m.free_idx + used m.slots ≡ length m.slots
    pub small : length m.slots < 2 ^ 64

  pub used-set :
      (slots : List (OrderSlot fp)) (i : ℕ) (old new : OrderSlot fp)
      → get_elem? slots i ≡ some old
      → used (set slots i new) + bit old.in_use ≡ used slots + bit new.in_use
  unfolding used
  used-set [] i old new h = cc
  used-set (s ∷ slots) zero old new h =
      let same : s ≡ old = some_injective s old h in rw same (omega arith)
  used-set (s ∷ slots) (suc i) old new h = omega (arith, used-set slots i old new h)

  pub AllFree-set :
      (slots : List (OrderSlot fp)) (i : ℕ) (new : OrderSlot fp) (is : List ℕ)
      → NotIn i is
      → AllFree slots is
      → AllFree (set slots i new) is
  unfolding AllFree
  AllFree-set slots i new [] apart all = all
  AllFree-set slots i new (j ∷ js) apart all = (
    get_elem-set-other slots i j new (apart.0) ∙ all.0,
    all.1,
    AllFree-set slots i new js (apart.1) (all.2),
  )

  -- A slot in use is not among the free ones.
  pub NotIn-used :
      (slots : List (OrderSlot fp)) (i : ℕ) (slot : OrderSlot fp) (is : List ℕ)
      → get_elem? slots i ≡ some slot
      → slot.in_use ≡ true
      → AllFree slots is
      → NotIn i is
  unfolding AllFree NotIn
  NotIn-used slots i slot [] there busy all = omega arith
  NotIn-used slots i slot (j ∷ js) there busy all = (
    λ same.
        let free : get_elem? slots i ≡ some (empty_slot fp) = rw same (all.0) in
        let both : slot ≡ empty_slot fp = some_injective _ _ (sym there ∙ free) in
        let idle : slot.in_use ≡ false = ap (λ s. s.in_use) both in true≢false (sym busy ∙ idle),
    NotIn-used slots i slot js there busy (all.2),
  )

  pub get_elem-lt :
      (slots : List (OrderSlot fp)) (i : ℕ) (slot : OrderSlot fp)
      → get_elem? slots i ≡ some slot
      → i < length slots
  get_elem-lt [] i slot h = cc
  get_elem-lt (s ∷ slots) zero slot h = omega arith
  get_elem-lt (s ∷ slots) (suc i) slot h = omega (arith, get_elem-lt slots i slot h)

  used-empty_slots : (n : ℕ) → used (empty_slots fp n) ≡ 0
  unfolding used empty_slots
  used-empty_slots zero = refl
  used-empty_slots (suc n) = omega (arith, used-empty_slots n)

  length-empty_slots : (n : ℕ) → length (empty_slots fp n) ≡ n
  unfolding empty_slots
  length-empty_slots zero = refl
  length-empty_slots (suc n) = omega (arith, length-empty_slots n)

  get_elem-empty_slots : (n i : ℕ) → i < n → get_elem? (empty_slots fp n) i ≡ some (empty_slot fp)
  unfolding empty_slots
  get_elem-empty_slots zero i h = absurd (omega arith)
  get_elem-empty_slots (suc n) zero h = refl
  get_elem-empty_slots (suc n) (suc i) h = get_elem-empty_slots n i (omega arith)

  unfoldable AllAbove : ℕ → List ℕ → Type 0
  AllAbove n [] = 0 ≤ 0
  AllAbove n (j ∷ js) = (n ≤ j) × AllAbove n js

  AllAbove-le : (m n : ℕ) (js : List ℕ) → m ≤ n → AllAbove n js → AllAbove m js
  unfolding AllAbove
  AllAbove-le m n [] h all = all
  AllAbove-le m n (j ∷ js) h all = (omega (arith, all.0), AllAbove-le m n js h (all.1))

  NotIn-AllAbove : (n : ℕ) (js : List ℕ) → AllAbove (suc n) js → NotIn n js
  unfolding AllAbove NotIn
  NotIn-AllAbove n [] all = omega arith
  NotIn-AllAbove n (j ∷ js) all = (λ same. ground (arith, same, all.0), NotIn-AllAbove n js (all.1))

  AllFree-free_indices :
      (capacity i : ℕ) (js : List ℕ)
      → i ≤ capacity
      → AllAbove i js
      → AllFree (empty_slots fp capacity) js
      → AllFree (empty_slots fp capacity) (free_indices i js)
        × (length (free_indices i js) ≡ i + length js)
  unfolding free_indices AllFree AllAbove
  AllFree-free_indices capacity zero js h above all = (all, omega arith)
  AllFree-free_indices capacity (suc i) js h above all =
      let rest =
        AllFree-free_indices capacity i (i ∷ js) (omega arith)
          (omega arith, AllAbove-le i (suc i) js (omega arith) above)
          (get_elem-empty_slots capacity i (omega arith), NotIn-AllAbove i js above, all) in
      (rest.0, omega (arith, rest.1))

  pub new_manager-IsConsistent :
      (capacity : ℕ) → capacity < 2 ^ 64 → IsConsistent (new_manager fp capacity)
  unfolding new_manager AllAbove AllFree
  new_manager-IsConsistent capacity h =
      let (free, count) =
        AllFree-free_indices capacity capacity [] (omega arith) (omega arith) (omega arith) in
      record {
        all_free = free;
        counted = sym (used-empty_slots capacity);
        divided = omega (arith, count, used-empty_slots capacity, length-empty_slots capacity);
        small = omega (arith, length-empty_slots capacity, h);
      }
