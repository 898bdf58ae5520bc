-- ===== src/OAuth/Query.antt =====
-- The query parser of src/CTraderOAuthCorrelation.cpp.
use trade_bot.Base.{
  ℕ, zero, suc, Bool, true, false, Option, none, some, List, [], ◌∷◌, ◌++◌, ◌||◌, ◌&&◌, not, ltb,
  leb, ◌==◌, if◌then◌else◌, length,
}
use trade_bot.Gate7.{Bytes}
use trade_bot.Gate7.Names.{bytes_eq}
use trade_bot.OAuth.{
  Decision, malformed_query, duplicate_parameter, authorization_rejected, state_missing,
  code_missing, correlation_matched_code_discarded,
}

unfoldable pub is_hex : ℕ → Bool
is_hex c = (leb 48 c && leb c 57) || (leb 97 c && leb c 102) || (leb 65 c && leb c 70)

-- The first number counts the hexadecimal digits that a '%' (37) still waits for.
unfoldable pub valid_from : ℕ → Bytes → Bool
unfolding is_hex
valid_from zero [] = true
valid_from (suc n) [] = false
valid_from zero (c ∷ cs) =
    let after_percent = valid_from 2 cs in
    let after_plain = valid_from 0 cs in
    if ltb c 32 || (c == 127) then false else if c == 37 then after_percent else after_plain
valid_from (suc n) (c ∷ cs) = is_hex c && valid_from n cs

unfoldable pub has_valid_encoding : Bytes → Bool
unfolding valid_from
has_valid_encoding value = valid_from 0 value

-- The text before the first `separator`, and the text after it, if there is one.
unfoldable pub cut : ℕ → Bytes → Bytes × Option Bytes
cut separator [] = ([], none)
cut separator (c ∷ cs) =
    let (before, after) = cut separator cs in
    if c == separator then ([], some cs) else (c ∷ before, after)

-- The parameters that '&' separates.
unfoldable pub parameters : Bytes → Bytes → List Bytes
parameters current [] = current ∷ []
parameters current (c ∷ cs) =
    let next = parameters [] cs in
    let longer = parameters (current ++ (c ∷ [])) cs in if c == 38 then current ∷ next else longer

pub record ParsedQuery : Type 0 where
  pub decision : Decision
  pub state : Bytes

abbrev pub refused : Decision → ParsedQuery
refused decision = record { decision = decision; state = [] }

unfoldable pub contains_name : List Bytes → Bytes → Bool
unfolding bytes_eq
contains_name [] name = false
contains_name (n ∷ names) name = bytes_eq n name || contains_name names name

-- The variables of the loop.
pub record QueryScan : Type 0 where
  pub names : List Bytes
  pub has_code : Bool
  pub has_error : Bool
  pub state : Bytes

-- "code", "state" and "error".
abbrev pub code_name : Bytes
code_name = 99 ∷ 111 ∷ 100 ∷ 101 ∷ []

abbrev pub state_name : Bytes
state_name = 115 ∷ 116 ∷ 97 ∷ 116 ∷ 101 ∷ []

abbrev pub error_name : Bytes
error_name = 101 ∷ 114 ∷ 114 ∷ 111 ∷ 114 ∷ []

abbrev pub is_empty : Bytes → Bool
is_empty [] = true
is_empty (c ∷ cs) = false

-- What a parameter with a valid name and value does: an early return, or new values.
pub data Noted : Type 0 where
  returns : Decision → Noted
  notes : QueryScan → Noted

unfoldable pub note_parameter : QueryScan → Bytes → Bytes → Noted
unfolding bytes_eq
note_parameter s name value =
    if bytes_eq name code_name
    then (if is_empty value then returns code_missing else notes (record s { has_code = true }))
    else if bytes_eq name state_name
    then (if is_empty value then returns state_missing else notes (record s { state = value }))
    else if bytes_eq name error_name
    then (if is_empty value then returns malformed_query else notes (record s { has_error = true }))
    else notes s

-- One round of the loop.
unfoldable pub read_parameter : QueryScan → Bytes → Noted
unfolding cut has_valid_encoding contains_name note_parameter
read_parameter s parameter =
    let (name, rest) = cut 61 parameter in
    if length s.names == 16 then returns malformed_query else elim rest [
      | none ↦ returns malformed_query
      | some value ↦
          if is_empty name
          then returns malformed_query
          else if not (has_valid_encoding name) || not (has_valid_encoding value)
          then returns malformed_query
          else if contains_name s.names name
          then returns duplicate_parameter
          else note_parameter (record s { names = name ∷ s.names }) name value
    ]

-- The code after the loop.
unfoldable pub conclude : QueryScan → ParsedQuery
conclude s =
    if s.has_error
    then (if s.has_code then refused malformed_query else refused authorization_rejected)
    else if is_empty s.state
    then refused state_missing
    else if not s.has_code
    then refused code_missing
    else record { decision = correlation_matched_code_discarded; state = s.state }

unfoldable pub read_parameters : QueryScan → List Bytes → ParsedQuery
unfolding read_parameter conclude
read_parameters s [] = conclude s
read_parameters s (parameter ∷ rest) = elim (read_parameter s parameter) [
  | returns decision ↦ refused decision
  | notes next ↦ read_parameters next rest
]

abbrev pub ends_with_separator : Bytes → Bool
ends_with_separator [] = false
ends_with_separator (c ∷ []) = c == 38
ends_with_separator (c ∷ d ∷ rest) = ends_with_separator (d ∷ rest)

unfoldable pub parse_query : Bytes → ParsedQuery
unfolding parameters read_parameters
parse_query [] = refused malformed_query
parse_query (c ∷ cs) =
    if (c == 63) || ends_with_separator (c ∷ cs)
    then refused malformed_query
    else read_parameters (record { names = []; has_code = false; has_error = false; state = [] })
        (parameters [] (c ∷ cs))
