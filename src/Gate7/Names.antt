-- ===== src/Gate7/Names.antt =====
-- The tests on names of src/CTraderGate7Proof.cpp, byte by byte.
use trade_bot.Base.{
  ◌-◌, Bool, true, false, Option, none, some, [], ◌∷◌, ◌++◌, ◌||◌, ◌&&◌, not, ltb, leb, ◌==◌,
  if◌then◌else◌, length,
}
use trade_bot.Gate7.{Bytes}

unfoldable pub bytes_eq : Bytes → Bytes → Bool
bytes_eq [] [] = true
bytes_eq [] (b ∷ bs) = false
bytes_eq (a ∷ rest) [] = false
bytes_eq (a ∷ rest) (b ∷ bs) = (a == b) && bytes_eq rest bs

-- "FIBO".
abbrev pub fibo : Bytes
fibo = 70 ∷ 73 ∷ 66 ∷ 79 ∷ []

-- "XAUUSD".
abbrev pub xauusd : Bytes
xauusd = 88 ∷ 65 ∷ 85 ∷ 85 ∷ 83 ∷ 68 ∷ []

unfoldable pub printable : Bytes → Bool
printable [] = true
printable (c ∷ cs) = not (ltb c 32 || (c == 127)) && printable cs

unfoldable pub is_safe_text : Bytes → Bool
unfolding printable
is_safe_text [] = false
is_safe_text (c ∷ cs) = leb (length (c ∷ cs)) 256 && printable (c ∷ cs)

-- The loop of `isCanonicalXauusd`: the bytes written so far and whether a slash was seen. Nothing
-- stands for its early `return false`; 47 is '/', 65 to 90 are 'A' to 'Z', 97 to 122 'a' to 'z'.
unfoldable pub normalize_name : Bytes → Bytes → Bool → Option Bytes
normalize_name [] normalized slash_seen = some normalized
normalize_name (c ∷ cs) normalized slash_seen =
    let after_slash = normalize_name cs normalized true in
    let after_lower = normalize_name cs (normalized ++ ((c - 32) ∷ [])) slash_seen in
    let after_upper = normalize_name cs (normalized ++ (c ∷ [])) slash_seen in
    if c == 47
    then (if slash_seen then none else after_slash)
    else if leb 97 c && leb c 122
    then (if leb 6 (length normalized) then none else after_lower)
    else if leb 65 c && leb c 90
    then (if leb 6 (length normalized) then none else after_upper)
    else none

unfoldable pub is_canonical_xauusd : Bytes → Bool
unfolding normalize_name bytes_eq
is_canonical_xauusd name = elim (normalize_name name [] false) [
  | none ↦ false
  | some normalized ↦ (length normalized == 6) && bytes_eq normalized xauusd
]
