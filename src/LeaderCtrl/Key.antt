-- ===== src/LeaderCtrl/Key.antt =====
-- What the key that `marshalEndpoints` of client/balancer/picker/leader_ctrl.go makes still says of a
-- cluster.
use mathlib.Core.List.{Perm}
use mathlib.Core.List.Perm
use mathlib.Core.HLevel.{Π_prop}
use mathlib.Core.Path.{subst}
use mathlib.Core.Quot
use mathlib.Core.Quot.{Quot, Quot-set}
use native.Mathlib.Nat.{ℕ_set}
use kubebrain_client.Prelude.{
  ℕ, ◌≡◌, ◌≢◌, refl, ap, ◌∙◌, sym, List, [], ◌∷◌, ◌++◌, arith, Bytes, codes, All, bytes_leb, ◌==◌,
  ==_iff, if◌then◌else◌, Bool-cases, inl, inr,
}
use kubebrain_client.LeaderCtrl.Endpoints.{
  insert_sorted, sort_strings, join, marshal_endpoints, marshal_endpoints-perm,
}

-- The comma.
abbrev pub comma : ℕ
comma = b','

push_char : ℕ → List Bytes → List Bytes
push_char c [] = (c ∷ []) ∷ []
push_char c (word ∷ words) = (c ∷ word) ∷ words

-- `strings.Split(s, ",")`
unfoldable pub split : Bytes → List Bytes
unfolding push_char
split [] = [] ∷ []
split (c ∷ s) = let words = split s in if c == comma then [] ∷ words else push_char c words

-- A text without a comma, such as a host with a port.
abbrev pub IsPlain : Bytes → Type 0
IsPlain = All (λ c. c ≢ comma)

split_one : (word : Bytes) → IsPlain word → split word ≡ word ∷ []
unfolding split
split_one [] p = refl
split_one (c ∷ word) p = ground (arith, split_one word p.1, ==_iff c comma, p.0)

split_first : (word s : Bytes) → IsPlain word → split (word ++ (comma ∷ s)) ≡ word ∷ split s
unfolding split
split_first [] s p = ground arith
split_first (c ∷ word) s p = ground (arith, split_first word s p.1, ==_iff c comma, p.0)

split-join :
    (word : Bytes) (words : List Bytes)
    → All IsPlain (word ∷ words)
    → split (join (codes ",") (word ∷ words)) ≡ word ∷ words
unfolding join
split-join word [] p = split_one word p.0
split-join word (next ∷ words) p =
    split_first word (join (codes ",") (next ∷ words)) p.0
    ∙ ap (λ ws. word ∷ ws) (split-join next words p.1)

All-insert_sorted :
    (x : Bytes) (ys : List Bytes) → IsPlain x → All IsPlain ys → All IsPlain (insert_sorted x ys)
unfolding insert_sorted
All-insert_sorted x [] p ps = (p, tt)
All-insert_sorted x (y ∷ ys) p ps = elim (Bool-cases (bytes_leb x y)) [
  | inl before ↦ rw before (p, (ps.0, ps.1))
  | inr behind ↦ rw behind (ps.0, All-insert_sorted x ys p ps.1)
]

All-sort_strings : (xs : List Bytes) → All IsPlain xs → All IsPlain (sort_strings xs)
unfolding sort_strings
All-sort_strings [] ps = tt
All-sort_strings (x ∷ xs) ps = All-insert_sorted x (sort_strings xs) ps.0 (All-sort_strings xs ps.1)

insert_sorted-perm : (x : Bytes) (ys : List Bytes) → Perm (insert_sorted x ys) (x ∷ ys)
unfolding insert_sorted
insert_sorted-perm x [] = Perm.refl (x ∷ [])
insert_sorted-perm x (y ∷ ys) = elim (Bool-cases (bytes_leb x y)) [
  | inl before ↦ rw before (Perm.refl (x ∷ y ∷ ys))
  | inr behind ↦ rw behind (Perm.trans (Perm.cons y (insert_sorted-perm x ys)) (Perm.swap x y ys))
]

sort_strings-perm : (xs : List Bytes) → Perm (sort_strings xs) xs
unfolding sort_strings
sort_strings-perm [] = Perm.refl []
sort_strings-perm (x ∷ xs) =
    Perm.trans (insert_sorted-perm x (sort_strings xs)) (Perm.cons x (sort_strings-perm xs))

insert_sorted_some : (x : Bytes) (ys : List Bytes) → insert_sorted x ys ≢ []
unfolding insert_sorted
insert_sorted_some x [] h = cc
insert_sorted_some x (y ∷ ys) h = ground arith

split-join_some :
    (words : List Bytes) → words ≢ [] → All IsPlain words → split (join (codes ",") words) ≡ words
split-join_some [] some_word p = absurd (some_word refl)
split-join_some (word ∷ words) some_word p = split-join word words p

pub split-marshal_endpoints :
    (eps : List Bytes)
    → eps ≢ []
    → All IsPlain eps
    → split (marshal_endpoints eps) ≡ sort_strings eps
unfolding marshal_endpoints sort_strings
split-marshal_endpoints [] some_ep p = absurd (some_ep refl)
split-marshal_endpoints (ep ∷ eps) some_ep p =
    split-join_some (sort_strings (ep ∷ eps)) (insert_sorted_some ep (sort_strings eps))
      (All-sort_strings (ep ∷ eps) p)

-- Endpoints that a cluster may have, and the cluster, which forgets their order.
abbrev pub Endpoints : Type 0
Endpoints = (eps : List Bytes) × (eps ≢ []) × All IsPlain eps

abbrev SameCluster : Endpoints → Endpoints → Type 0
SameCluster a b = Perm a.0 b.0

abbrev pub Cluster : Type 0
Cluster = Quot SameCluster

-- `marshalEndpoints` of a cluster
unfoldable pub key : Cluster → Bytes
key =
    Quot.lift (hlevel ℕ_set) (λ a. marshal_endpoints a.0)
      (λ a b p. marshal_endpoints-perm a.0 b.0 p)

same_key : (a b : Endpoints) → marshal_endpoints a.0 ≡ marshal_endpoints b.0 → SameCluster a b
same_key (xs, some_x, p) (ys, some_y, q) e =
    let same : sort_strings xs ≡ sort_strings ys =
      sym (split-marshal_endpoints xs some_x p)
      ∙ ap split e
      ∙ split-marshal_endpoints ys some_y q in
    Perm.trans (Perm.symm (sort_strings-perm xs))
      (subst (λ zs. Perm zs ys) (sym same) (sort_strings-perm ys))

-- Two clusters with one endpoint or more each, none of which has a comma, have the same key only if
-- they are the same cluster, where a cluster is the set of its endpoints with their multiplicity:
-- the key is defined on clusters, since it does not depend on the order, and it is injective.
pub key_injective : (a b : Cluster) → key a ≡ key b → a ≡ b
unfolding key
key_injective =
    Quot.ind (λ a. Π_prop (λ b. Π_prop (λ e. Quot-set _ _)))
      (λ a. Quot.ind (λ b. Π_prop (λ e. Quot-set _ _)) (λ b e. Quot.sound (same_key a b e)))
