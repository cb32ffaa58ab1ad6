-- ===== src/Keys.antt =====
-- client/util.go: the end of the range of keys that share a prefix.
pub mod Prefix
use kubebrain_client.Prelude.{
  ℕ, zero, suc, ◌+◌, ◌%◌, Option, none, some, List, [], ◌∷◌, Bytes, ltb, if◌then◌else◌, length,
  get_or, set, take,
}

-- `noPrefixEnd`
abbrev pub no_prefix_end : Bytes
no_prefix_end = 0 ∷ []

-- The loop of `prefixEnd`: the argument is `i + 1`, and `none` is a loop that ends by its test.
-- `end[i] + 1` is an addition of bytes.
unfoldable pub prefix_end_loop : Bytes → ℕ → Option Bytes
prefix_end_loop end zero = none
prefix_end_loop end (suc i) =
    if ltb (get_or end i 0) 0xff
    then some (take (suc i) (set end i ((get_or end i 0 + 1) % 256)))
    else prefix_end_loop end i

abbrev or_default : Option Bytes → Bytes
or_default none = no_prefix_end
or_default (some end) = end

-- `prefixEnd`, and `PrefixEnd`, which differs by the conversions between strings and slices
unfoldable pub prefix_end : Bytes → Bytes
unfolding prefix_end_loop
prefix_end prefix = or_default (prefix_end_loop prefix (length prefix))
