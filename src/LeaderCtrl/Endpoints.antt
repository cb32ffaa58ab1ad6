-- ===== src/LeaderCtrl/Endpoints.antt =====
-- `marshalEndpoints` of client/balancer/picker/leader_ctrl.go: the key of a cluster.
use mathlib.Core.List.{Perm, Permᴰ}
use mathlib.Core.Logic.{∥∥₁_elim}
use native.Mathlib.Nat.{ℕ_set}
use kubebrain_client.Prelude.{
  ℕ, suc, ◌+◌, ◌≤◌, ◌-◌, ◌||◌, ◌≡◌, refl, ap, ◌∙◌, Bool, true, false, List, [], ◌∷◌, ◌++◌, arith,
  Bytes, bytes_eq, bytes_leb, bytes_leb_total, bytes_leb_antisymm, bytes_leb_trans, codes,
  bytes_eq_iff, if◌then◌else◌, length, length-append,
}

-- `sort.Strings`, by insertion
unfoldable pub insert_sorted : Bytes → List Bytes → List Bytes
insert_sorted x [] = x ∷ []
insert_sorted x (y ∷ ys) = if bytes_leb x y then x ∷ y ∷ ys else y ∷ insert_sorted x ys

unfoldable pub sort_strings : List Bytes → List Bytes
unfolding insert_sorted
sort_strings [] = []
sort_strings (x ∷ xs) = insert_sorted x (sort_strings xs)

-- `strings.Join`
unfoldable pub join : Bytes → List Bytes → Bytes
join sep [] = []
join sep (x ∷ []) = x
join sep (x ∷ y ∷ ys) = x ++ (sep ++ join sep (y ∷ ys))

unfoldable pub marshal_endpoints : List Bytes → Bytes
unfolding sort_strings join
marshal_endpoints eps = join (codes ",") (sort_strings eps)

-- Two insertions may change places.
insert_sorted_comm :
    (x y : Bytes) (zs : List Bytes)
    → insert_sorted x (insert_sorted y zs) ≡ insert_sorted y (insert_sorted x zs)
unfolding insert_sorted
insert_sorted_comm x y [] =
    ground (arith, bytes_leb_total x y, bytes_leb_total y x, bytes_leb_antisymm x y)
insert_sorted_comm x y (z ∷ zs) = ground (
  arith,
  bytes_leb_total x y,
  bytes_leb_total y x,
  bytes_leb_antisymm x y,
  bytes_leb_trans x y z,
  bytes_leb_trans y x z,
  bytes_leb_total x z,
  bytes_leb_total y z,
  insert_sorted_comm x y zs,
)

sort_strings-permᴰ : {xs ys : List Bytes} → Permᴰ xs ys → sort_strings xs ≡ sort_strings ys
unfolding sort_strings
sort_strings-permᴰ Permᴰ.nil = refl
sort_strings-permᴰ (Permᴰ.cons e p) = cc (sort_strings-permᴰ p)
sort_strings-permᴰ (Permᴰ.swap {a} {b} {l} e f) = cc (insert_sorted_comm a b (sort_strings l))
sort_strings-permᴰ (Permᴰ.trans p q) = sort_strings-permᴰ p ∙ sort_strings-permᴰ q

-- The key of a cluster does not depend on the order in which its endpoints are given.
pub marshal_endpoints-perm :
    (xs ys : List Bytes) → Perm xs ys → marshal_endpoints xs ≡ marshal_endpoints ys
unfolding marshal_endpoints
marshal_endpoints-perm xs ys p =
    ∥∥₁_elim p (hlevel ℕ_set) (λ d. ap (join (codes ",")) (sort_strings-permᴰ d))

unfoldable pub member : Bytes → List Bytes → Bool
member k [] = false
member k (x ∷ xs) = bytes_eq x k || member k xs

abbrev total : List Bytes → ℕ
total [] = 0
total (x ∷ xs) = length x + total xs

insert_sorted_sizes :
    (x : Bytes) (ys : List Bytes)
    → (length (insert_sorted x ys) ≡ suc (length ys))
      × (total (insert_sorted x ys) ≡ length x + total ys)
unfolding insert_sorted
insert_sorted_sizes x [] = omega arith
insert_sorted_sizes x (y ∷ ys) = ground (arith, insert_sorted_sizes x ys)

sort_strings_sizes :
    (xs : List Bytes)
    → (length (sort_strings xs) ≡ length xs) × (total (sort_strings xs) ≡ total xs)
unfolding sort_strings
sort_strings_sizes [] = omega arith
sort_strings_sizes (x ∷ xs) =
    omega (arith, insert_sorted_sizes x (sort_strings xs), sort_strings_sizes xs)

length-join : (xs : List Bytes) → total xs + (length xs - 1) ≡ length (join (codes ",") xs)
unfolding join
length-join [] = omega arith
length-join (x ∷ []) = omega arith
length-join (x ∷ y ∷ ys) =
    omega (arith, length-append x (codes "," ++ join (codes ",") (y ∷ ys)), length-join (y ∷ ys))

member-le-total : (k : Bytes) (xs : List Bytes) → member k xs ≡ true → length k ≤ total xs
unfolding member
member-le-total k [] h = cc
member-le-total k (x ∷ xs) h = ground (arith, bytes_eq_iff x k, member-le-total k xs)

-- The key of two or more endpoints is none of them.
pub marshal_endpoints_new :
    (eps : List Bytes) → 2 ≤ length eps → member (marshal_endpoints eps) eps ≡ false
unfolding marshal_endpoints
marshal_endpoints_new eps h = ground (
  arith,
  member-le-total (join (codes ",") (sort_strings eps)) eps,
  length-join (sort_strings eps),
  sort_strings_sizes eps,
)

-- The key of one endpoint is that endpoint.
pub marshal_endpoints_one : (ep : Bytes) → marshal_endpoints (ep ∷ []) ≡ ep
unfolding marshal_endpoints
marshal_endpoints_one ep = refl
