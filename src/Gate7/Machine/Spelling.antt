-- ===== src/Gate7/Machine/Spelling.antt =====
-- The names that `isCanonicalXauusd` takes, without its loop.
use mathlib.Core.List.{append-nil, append_assoc}
use trade_bot.Base.{
  Bool, Bool-cases, Option, [], ap, arith, false, if◌then◌else◌, inl, inr, leb, length,
  length-append, none, refl, some, suc, true, ℕ, ◌&&◌, ◌++◌, ◌+◌, ◌-◌, ◌==◌, ◌∙◌, ◌∷◌, ◌≡◌, ◌≤◌,
}
use trade_bot.Gate7.{Bytes}
use trade_bot.Gate7.Names.{bytes_eq, is_canonical_xauusd, normalize_name, xauusd}
use trade_bot.Gate7.Machine.Selection.{bytes_eq→eq}

unfoldable pub capital : ℕ → ℕ
capital c = if leb 97 c && leb c 122 then c - 32 else c

-- The letters without the slashes, in capitals.
unfoldable pub letters_of : Bytes → Bytes
unfolding capital
letters_of [] = []
letters_of (c ∷ cs) = let rest = letters_of cs in if c == 47 then rest else capital c ∷ rest

unfoldable pub slashes : Bytes → ℕ
slashes [] = 0
slashes (c ∷ cs) = let rest = slashes cs in if c == 47 then suc rest else rest

-- "XAUUSD" in large and small letters, with one slash at most.
unfoldable pub is_spelled : Bytes → Bool
unfolding letters_of slashes
is_spelled name = bytes_eq (letters_of name) xauusd && leb (slashes name) 1

-- What the code makes of the loop's result.
abbrev accepts : Option Bytes → Bool
accepts none = false
accepts (some normalized) = (length normalized == 6) && bytes_eq normalized xauusd

abbrev seen_slashes : Bool → ℕ
seen_slashes true = 1
seen_slashes false = 0

abbrev is_capital : ℕ → Bool
is_capital c = leb 65 c && leb c 90

unfoldable all_capital : Bytes → Bool
all_capital [] = true
all_capital (c ∷ cs) = is_capital c && all_capital cs

all_capital-middle :
    (n : Bytes) (c : ℕ) (r : Bytes) → all_capital (n ++ (c ∷ r)) ≡ true → is_capital c ≡ true
unfolding all_capital
all_capital-middle [] c r h = ground arith
all_capital-middle (x ∷ n) c r h = all_capital-middle n c r (ground arith)

-- Another character than a capital, or a seventh one, is no part of the name.
no_capital :
    (n : Bytes) (c : ℕ) (r : Bytes) → is_capital c ≡ false → bytes_eq (n ++ (c ∷ r)) xauusd ≡ false
unfolding all_capital
no_capital n c r h = elim (Bool-cases (bytes_eq (n ++ (c ∷ r)) xauusd)) [
  | inr other ↦ other
  | inl same ↦ absurd (
      let letters : all_capital (n ++ (c ∷ r)) ≡ true =
        ap all_capital (bytes_eq→eq (n ++ (c ∷ r)) xauusd same) in
      let large = all_capital-middle n c r letters in ground (arith, h, large))
]

seventh : (n : Bytes) (c : ℕ) (r : Bytes) → 6 ≤ length n → bytes_eq (n ++ (c ∷ r)) xauusd ≡ false
seventh n c r h = elim (Bool-cases (bytes_eq (n ++ (c ∷ r)) xauusd)) [
  | inr other ↦ other
  | inl same ↦ absurd (
      let size : length (n ++ (c ∷ r)) ≡ 6 = ap length (bytes_eq→eq (n ++ (c ∷ r)) xauusd same) in
      omega (arith, size, length-append n (c ∷ r), h))
]

whole : (n : Bytes) → bytes_eq n xauusd ≡ ((length n == 6) && bytes_eq n xauusd)
whole n = elim (Bool-cases (bytes_eq n xauusd)) [
  | inr other ↦ ground (arith, other)
  | inl same ↦
      let size : length n ≡ 6 = ap length (bytes_eq→eq n xauusd same) in ground (arith, same, size)
]

normalize_name-letters_of :
    (name normalized : Bytes) (seen : Bool)
    → accepts (normalize_name name normalized seen) ≡ (
        bytes_eq (normalized ++ letters_of name) xauusd && leb (slashes name + seen_slashes seen) 1)
unfolding normalize_name letters_of slashes capital
normalize_name-letters_of [] n seen =
    let small : leb (seen_slashes seen) 1 ≡ true = ground arith in
    let same = append-nil n in let all = whole n in rw same (ground (arith, all, small))
normalize_name-letters_of (c ∷ cs) n seen = elim (Bool-cases (c == 47)) [
  | inl slash ↦ rw slash (after_slash seen (normalize_name-letters_of cs n true))
  | inr letter ↦ elim (Bool-cases (leb 97 c && leb c 122)) [
    | inl lower ↦
        rw (letter, lower)
          (elim (Bool-cases (leb 6 (length n))) [
            | inl full ↦
                let beyond = seventh n (c - 32) (letters_of cs) (ground arith) in
                rw (full, beyond) refl
            | inr room ↦
                let next = normalize_name-letters_of cs (n ++ ((c - 32) ∷ [])) seen in
                rw room (next ∙ shifted (c - 32))
          ])
    | inr other ↦
        rw (letter, other)
          (elim (Bool-cases (leb 65 c && leb c 90)) [
            | inl upper ↦ rw upper (elim (Bool-cases (leb 6 (length n))) [
              | inl full ↦
                  let beyond = seventh n c (letters_of cs) (ground arith) in rw (full, beyond) refl
              | inr room ↦
                  let next = normalize_name-letters_of cs (n ++ (c ∷ [])) seen in
                  rw room (next ∙ shifted c)
            ])
            | inr none_of ↦
                let beyond = no_capital n c (letters_of cs) none_of in rw (none_of, beyond) refl
          ])
  ]
]
  where
    shifted :
        (x : ℕ)
        → (bytes_eq ((n ++ (x ∷ [])) ++ letters_of cs) xauusd
            && leb (slashes cs + seen_slashes seen) 1)
          ≡ (bytes_eq (n ++ (x ∷ letters_of cs)) xauusd && leb (slashes cs + seen_slashes seen) 1)
    shifted x =
        ap (λ l. bytes_eq l xauusd && leb (slashes cs + seen_slashes seen) 1)
          (append_assoc n (x ∷ []) (letters_of cs))

    after_slash :
        (s : Bool)
        → accepts (normalize_name cs n true)
          ≡ (bytes_eq (n ++ letters_of cs) xauusd && leb (slashes cs + 1) 1)
        → accepts (if s then none else normalize_name cs n true)
          ≡ (bytes_eq (n ++ letters_of cs) xauusd && leb (suc (slashes cs) + seen_slashes s) 1)
    after_slash true next = ground arith
    after_slash false next =
        let count : suc (slashes cs) + 0 ≡ slashes cs + 1 = omega arith in rw count next

pub is_canonical_xauusd-is_spelled : (name : Bytes) → is_canonical_xauusd name ≡ is_spelled name
unfolding is_canonical_xauusd is_spelled
is_canonical_xauusd-is_spelled name =
    let count : slashes name + 0 ≡ slashes name = omega arith in
    let same = normalize_name-letters_of name [] false in
    elims (normalize_name name [] false)
    ∙ same
    ∙ ap (λ k. bytes_eq (letters_of name) xauusd && leb k 1) count
  where
    elims :
        (o : Option Bytes)
        → (elim o [
          | none ↦ false
          | some normalized ↦ (length normalized == 6) && bytes_eq normalized xauusd
        ])
          ≡ accepts o
    elims none = refl
    elims (some normalized) = refl
