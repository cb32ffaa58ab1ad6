-- ===== src/Prelude/Go.antt =====
-- Results of calls, and channels.
use mathlib.Core.Bool.{Bool}
use mathlib.Core.Option.{Option, none, some}
use mathlib.Core.List.{List}

-- What code outside the repository returns: a value or an error.
pub data Result (E A : Type 0) : Type 0 where
  ok : A → Result E A
  err : E → Result E A

-- The pair of a pointer and an error that Go returns.
abbrev pub pair_of : {E A : Type 0} → Result E A → Option A × Option E
pair_of (ok a) = (some a, none)
pair_of (err e) = (none, some e)

-- All that is sent to a channel, and whether it is closed in the end.
pub record Chan (A : Type 0) : Type 0 where
  pub sent : List A
  pub closed : Bool
