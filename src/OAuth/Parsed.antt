-- ===== src/OAuth/Parsed.antt =====
-- The state that a parsed query gives is made of the query's bytes.
use trade_bot.Gate7.{Bytes}
use trade_bot.Base.{
  Bool, Bool-cases, List, Option, Option-cases, [], arith, false, if◌then◌else◌, inl, inr, length,
  none, not, refl, some, subst, true, ℕ, ◌&&◌, ◌++◌, ◌==◌, ◌||◌, ◌∷◌, ◌≡◌,
}
use trade_bot.OAuth.Query.{
  Noted, ParsedQuery, QueryScan, conclude, contains_name, cut, ends_with_separator,
  has_valid_encoding, is_empty, note_parameter, notes, parameters, parse_query, read_parameter,
  read_parameters, refused, returns,
}
use trade_bot.OAuth.Comparison.{all_bytes}
use trade_bot.OAuth.{Decision, duplicate_parameter, malformed_query}

all_bytes-append :
    (xs ys : Bytes) → all_bytes xs ≡ true → all_bytes ys ≡ true → all_bytes (xs ++ ys) ≡ true
unfolding all_bytes
all_bytes-append [] ys h k = k
all_bytes-append (x ∷ xs) ys h k =
    let rest = all_bytes-append xs ys (ground arith) k in ground (arith, rest)

unfoldable all_texts : List Bytes → Bool
unfolding all_bytes
all_texts [] = true
all_texts (x ∷ xs) = all_bytes x && all_texts xs

abbrev bytes_of : Option Bytes → Bool
bytes_of none = true
bytes_of (some bytes) = all_bytes bytes

cut-bytes_of :
    (separator : ℕ) (text : Bytes) → all_bytes text ≡ true → bytes_of (cut separator text).1 ≡ true
unfolding cut all_bytes
cut-bytes_of separator [] h = refl
cut-bytes_of separator (c ∷ cs) h =
    let rest = cut-bytes_of separator cs (ground arith) in
    elim (Bool-cases (c == separator)) [
      | inl here ↦ rw here (ground (arith, h))
      | inr on ↦ rw on rest
    ]

parameters-all_texts :
    (current text : Bytes)
    → all_bytes current ≡ true
    → all_bytes text ≡ true
    → all_texts (parameters current text) ≡ true
unfolding parameters all_bytes all_texts
parameters-all_texts current [] h k = rw h refl
parameters-all_texts current (c ∷ cs) h k =
    let below : all_bytes (c ∷ []) ≡ true = ground (arith, k) in
    let next = parameters-all_texts [] cs refl (ground (arith, k)) in
    let longer =
      parameters-all_texts (current ++ (c ∷ [])) cs (all_bytes-append current (c ∷ []) h below)
        (ground (arith, k)) in
    elim (Bool-cases (c == 38)) [ inl here ↦ rw (here, h) next | inr on ↦ rw on longer ]

abbrev state_of : Noted → Bool
state_of (returns decision) = true
state_of (notes s) = all_bytes s.state

note_parameter-state_of :
    (s : QueryScan) (name value : Bytes)
    → all_bytes s.state ≡ true
    → all_bytes value ≡ true
    → state_of (note_parameter s name value) ≡ true
unfolding note_parameter
note_parameter-state_of s name value h k = ground (arith, h, k)

-- A parameter that is refused carries no state.
guarded :
    (test : Bool) (d : Decision) (n : Noted)
    → state_of n ≡ true
    → state_of (if test then returns d else n) ≡ true
guarded true d n h = refl
guarded false d n h = h

read_parameter-state_of :
    (s : QueryScan) (parameter : Bytes)
    → all_bytes s.state ≡ true
    → bytes_of (cut 61 parameter).1 ≡ true
    → state_of (read_parameter s parameter) ≡ true
unfolding read_parameter
read_parameter-state_of s parameter h k = elim (Option-cases ((cut 61 parameter).1)) [
  | inl e ↦ rw e (guarded (length s.names == 16) malformed_query (returns malformed_query) refl)
  | inr (value, e) ↦
      let noted =
        note_parameter-state_of (record s { names = (cut 61 parameter).0 ∷ s.names })
          (cut 61 parameter).0 value h (subst (λ o. bytes_of o ≡ true) e k) in
      let name : Bytes = (cut 61 parameter).0 in
      rw e (
        guarded (length s.names == 16) malformed_query _ (
          guarded (is_empty name) malformed_query _ (
            guarded (not (has_valid_encoding name) || not (has_valid_encoding value))
              malformed_query _
              (guarded (contains_name s.names name) duplicate_parameter
                (note_parameter (record s { names = name ∷ s.names }) name value) noted))))
]

read_parameters-all_bytes :
    (s : QueryScan) (texts : List Bytes)
    → all_bytes s.state ≡ true
    → all_texts texts ≡ true
    → all_bytes (read_parameters s texts).state ≡ true
unfolding read_parameters conclude all_bytes all_texts
read_parameters-all_bytes s [] h k = ground (arith, h)
read_parameters-all_bytes s (text ∷ texts) h k =
    noted (read_parameter s text)
      (read_parameter-state_of s text h (cut-bytes_of 61 text (ground (arith, k))))
      (λ next kept. read_parameters-all_bytes next texts kept (ground (arith, k)))
  where
    noted :
        (n : Noted)
        → state_of n ≡ true
        → ((next : QueryScan)
            → all_bytes next.state ≡ true
            → all_bytes (read_parameters next texts).state ≡ true)
        → let out : ParsedQuery = elim n [
          | returns decision ↦ refused decision
          | notes next ↦ read_parameters next texts
        ] in
          all_bytes out.state ≡ true
    noted (returns decision) e later = refl
    noted (notes next) e later = later next e

pub parse_query-all_bytes :
    (query : Bytes) → all_bytes query ≡ true → all_bytes (parse_query query).state ≡ true
unfolding parse_query all_bytes
parse_query-all_bytes [] h = refl
parse_query-all_bytes (c ∷ cs) h =
    let read =
      read_parameters-all_bytes
        (record { names = []; has_code = false; has_error = false; state = [] })
        (parameters [] (c ∷ cs)) refl (parameters-all_texts [] (c ∷ cs) refl h) in
    elim (Bool-cases ((c == 63) || ends_with_separator (c ∷ cs))) [
      | inl bad ↦ rw bad refl
      | inr good ↦ rw good read
    ]
