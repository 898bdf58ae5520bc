-- ===== src/Portfolio/Positions.antt =====
-- The map of positions.
use Prim.Native.String.{String}
use trade_bot.Base.{Bool, Option, [], false, if◌then◌else◌, none, some, ◌||◌, ◌∷◌}
use trade_bot.Base.Text.{str_eq}
use trade_bot.Portfolio.{PositionState, Positions}

unfoldable pub find_position : String → Positions → Option PositionState
find_position symbol [] = none
find_position symbol ((key, state) ∷ rest) =
    if str_eq key symbol then some state else find_position symbol rest

-- A change of the state under a key that is there.
unfoldable pub set_position : String → PositionState → Positions → Positions
set_position symbol state [] = []
set_position symbol state ((key, old) ∷ rest) =
    if str_eq key symbol then (key, state) ∷ rest else (key, old) ∷ set_position symbol state rest

unfoldable pub erase_position : String → Positions → Positions
erase_position symbol [] = []
erase_position symbol ((key, old) ∷ rest) =
    if str_eq key symbol then rest else (key, old) ∷ erase_position symbol rest

unfoldable pub contains_position : String → Positions → Bool
contains_position symbol [] = false
contains_position symbol ((key, state) ∷ rest) = str_eq key symbol || contains_position symbol rest
