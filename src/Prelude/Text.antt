-- ===== src/Prelude/Text.antt =====
-- Go's strings and byte slices: lists of bytes, with `==`, the lexicographic order and prefixes.
use Prim.Native.Char.{code}
use Prim.Native.String.{String}
use Prim.Native.Nat.{ℕ, ◌<◌}
use mathlib.Core.Path.{◌≡◌, refl}
use mathlib.Core.Logic.{◌↔◌}
use mathlib.Core.Bool.{Bool, true, false, ◌&&◌}
use mathlib.Core.List.{List, [], ◌∷◌}
use native.Mathlib.Omega.{arith}
use kubebrain_client.Prelude.Tests.{ltb, ◌==◌, ==_iff, if◌then◌else◌}
use kubebrain_client.Prelude.Lists.{All}

abbrev pub Bytes : Type 0
Bytes = List ℕ

-- The bytes of an ASCII literal.
abbrev pub codes : String → Bytes
codes String.[] = []
codes (String.◌∷◌ c s) = code c ∷ codes s

unfoldable pub bytes_eq : Bytes → Bytes → Bool
bytes_eq [] [] = true
bytes_eq [] (_ ∷ _) = false
bytes_eq (_ ∷ _) [] = false
bytes_eq (x ∷ xs) (y ∷ ys) = x == y && bytes_eq xs ys

pub bytes_eq_iff : (a b : Bytes) → (bytes_eq a b ≡ true) ↔ (a ≡ b)
unfolding bytes_eq
bytes_eq_iff [] [] = ground arith
bytes_eq_iff [] (y ∷ ys) = ground arith
bytes_eq_iff (x ∷ xs) [] = ground arith
bytes_eq_iff (x ∷ xs) (y ∷ ys) = ground (arith, ==_iff x y, bytes_eq_iff xs ys)

pub bytes_eq_refl : (a : Bytes) → bytes_eq a a ≡ true
bytes_eq_refl a = (bytes_eq_iff a a).1 refl

pub bytes_eq_sym : (a b : Bytes) → bytes_eq a b ≡ bytes_eq b a
bytes_eq_sym a b = ground (arith, bytes_eq_iff a b, bytes_eq_iff b a)

-- `a <= b`: byte by byte, a proper prefix first.
unfoldable pub bytes_leb : Bytes → Bytes → Bool
bytes_leb [] _ = true
bytes_leb (_ ∷ _) [] = false
bytes_leb (x ∷ xs) (y ∷ ys) = if ltb x y then true else if x == y then bytes_leb xs ys else false

unfoldable pub bytes_ltb : Bytes → Bytes → Bool
bytes_ltb _ [] = false
bytes_ltb [] (_ ∷ _) = true
bytes_ltb (x ∷ xs) (y ∷ ys) = if ltb x y then true else if x == y then bytes_ltb xs ys else false

-- `strings.HasPrefix(s, p)` is `has_prefix p s`.
unfoldable pub has_prefix : Bytes → Bytes → Bool
has_prefix [] _ = true
has_prefix (_ ∷ _) [] = false
has_prefix (x ∷ xs) (y ∷ ys) = x == y && has_prefix xs ys

abbrev pub IsBytes : Bytes → Type 0
IsBytes = All (λ b. b < 256)
