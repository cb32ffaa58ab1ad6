-- ===== src/Client/RangeStream/Snapshot/Split.antt =====
-- A range splits into its partitions.
use mathlib.Core.List.{Perm, perm_middle}
use mathlib.Core.List.Perm
use kubebrain_client.Prelude.{
  ◌≡◌, refl, inl, inr, ◌⊎◌, Bool, true, false, some, List, [], ◌∷◌, ◌++◌, arith, Bytes, bytes_leb,
  bytes_ltb, bytes_leb_trans, bytes_ltb-not_leb, ◌&&◌, Bool-cases,
}
use kubebrain_client.Rpc.Messages.{KeyValue}
use kubebrain_client.Client.RangeStream.Snapshot.{within}

pub within_self : (a : Bytes) (kvs : List KeyValue) → within a a kvs ≡ []
within_self a [] = refl
within_self a (kv ∷ kvs) = ground (arith, within_self a kvs, bytes_ltb-not_leb kv.key a)

abbrev inside : Bytes → Bytes → Bytes → Bool
inside a b k = bytes_leb a k && bytes_ltb k b

-- A key of the whole is in exactly one of the two, and no other key is in either.
inside_cases :
    (a b c k : Bytes)
    → bytes_leb a b ≡ true
    → bytes_leb b c ≡ true
    → ((inside a b k ≡ true) × (inside b c k ≡ false) × (inside a c k ≡ true))
      ⊎ ((inside a b k ≡ false) × (inside b c k ≡ true) × (inside a c k ≡ true))
      ⊎ ((inside a b k ≡ false) × (inside b c k ≡ false) × (inside a c k ≡ false))
inside_cases a b c k p q = elim (Bool-cases (bytes_leb b k)) [
  | inl above ↦ elim (Bool-cases (bytes_ltb k c)) [
    | inl below ↦ inr (inl (ground (arith, bytes_ltb-not_leb k b, bytes_leb_trans a b k)))
    | inr beyond ↦ inr (inr (ground (arith, bytes_ltb-not_leb k b)))
  ]
  | inr under ↦ elim (Bool-cases (bytes_leb a k)) [
    | inl above ↦
        inl (ground (arith, bytes_ltb-not_leb k b, bytes_ltb-not_leb k c, bytes_leb_trans b c k))
    | inr outside ↦ inr (inr (ground arith))
  ]
]

-- The key-values of two neighbouring ranges are those of the range that they make up.
pub within-append :
    (a b c : Bytes) (kvs : List KeyValue)
    → bytes_leb a b ≡ true
    → bytes_leb b c ≡ true
    → Perm (within a b kvs ++ within b c kvs) (within a c kvs)
within-append a b c [] p q = Perm.refl []
within-append a b c (kv ∷ kvs) p q = elim (inside_cases a b c kv.key p q) [
  | inl (l, r, w) ↦ rw (l, r, w) (Perm.cons (some kv) (within-append a b c kvs p q))
  | inr (inl (l, r, w)) ↦
      rw (l, r, w)
        (Perm.trans (perm_middle (within a b kvs) (within b c kvs))
          (Perm.cons (some kv) (within-append a b c kvs p q)))
  | inr (inr (l, r, w)) ↦ rw (l, r, w) (within-append a b c kvs p q)
]
