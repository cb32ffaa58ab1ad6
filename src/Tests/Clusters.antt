-- ===== src/Tests/Clusters.antt =====
-- Two clusters in one controller of client/balancer/picker/leader_ctrl.go.
use kubebrain_client.Prelude.{
  ℕ, zero, suc, ◌≡◌, refl, inl, inr, true, false, some, List, [], ◌∷◌, arith, Bytes, codes,
  bytes_eq, bytes_eq_iff, bytes_leb, ◌==◌, get_elem?, Bool-cases,
}
use kubebrain_client.LeaderCtrl.{Answer, LeaderCtrl, done, empty}
use kubebrain_client.LeaderCtrl.Endpoints.{marshal_endpoints, member}
use kubebrain_client.LeaderCtrl.Index.{Distinct, own}
use kubebrain_client.LeaderCtrl.Clusters.{
  Call, registers, unregisters, looks_up, ticks, run, clients, Follows, Separate,
}
use kubebrain_client.LeaderCtrl.Clusters.Counted.{clusters_counted}

abbrev one : List Bytes
one = codes "a:1" ∷ []

abbrev two : List Bytes
two = codes "c:1" ∷ codes "b:1" ∷ []

abbrev clusters : List (List Bytes)
clusters = one ∷ two ∷ []

one_key : marshal_endpoints one ≡ codes "a:1"
unfolding marshal_endpoints
one_key = refl

two_key : marshal_endpoints two ≡ codes "b:1,c:1"
unfolding marshal_endpoints bytes_leb
two_key = refl

one-own : (k : Bytes) → own one k ≡ true → codes "a:1" ≡ k
unfolding own member
one-own k h = ground (arith, one_key, bytes_eq_iff (codes "a:1") k)

two_not_own : own two (codes "a:1") ≡ false
unfolding own member bytes_eq
two_not_own = rw two_key

one-two : (k : Bytes) → own one k ≡ true → own two k ≡ false
one-two k h = rw (← one-own k h) two_not_own

two-one : (k : Bytes) → own two k ≡ true → own one k ≡ false
two-one k h = elim (Bool-cases (own one k)) [
  | inl both ↦ absurd (ground (arith, h, one-two k both))
  | inr other ↦ other
]

pair_apart :
    (i j : ℕ) (a b : List Bytes) (k : Bytes)
    → get_elem? clusters i ≡ some a
    → get_elem? clusters j ≡ some b
    → (i == j) ≡ false
    → own a k ≡ true
    → own b k ≡ false
pair_apart zero zero a b k p q other h = cc
pair_apart zero (suc zero) a b k p q other h = ground (arith, one-two k)
pair_apart zero (suc (suc j)) a b k p q other h = cc
pair_apart (suc zero) zero a b k p q other h = ground (arith, two-one k)
pair_apart (suc zero) (suc zero) a b k p q other h = cc
pair_apart (suc zero) (suc (suc j)) a b k p q other h = cc
pair_apart (suc (suc i)) j a b k p q other h = cc

one-Distinct : Distinct one
unfolding member
one-Distinct = (refl, tt)

two-Distinct : Distinct two
unfolding member bytes_eq
two-Distinct = (refl, (refl, tt))

pair-Distinct : (i : ℕ) (a : List Bytes) → get_elem? clusters i ≡ some a → Distinct a
pair-Distinct zero a p = let same : one ≡ a = ground (arith, p) in rw (← same) one-Distinct
pair-Distinct (suc zero) a p = let same : two ≡ a = ground (arith, p) in rw (← same) two-Distinct
pair-Distinct (suc (suc i)) a p = cc

pair-Separate : Separate clusters
pair-Separate = record { apart = pair_apart; distinct = pair-Distinct }

abbrev leads : Answer
leads = record { addr = codes "b:1"; failed = false }

-- Both come, a picker looks up a key of neither, and the first one goes.
abbrev calls : List Call
calls =
    registers 0 leads leads
    ∷ registers 1 leads leads
    ∷ looks_up (codes "d:1")
    ∷ ticks 1 leads
    ∷ registers 1 leads leads
    ∷ unregisters 0
    ∷ []

clusters_counted_example :
    (ctrl : LeaderCtrl) × (run clusters calls empty ≡ done ctrl)
    × Follows two (clients 1 calls 0) ctrl
clusters_counted_example = clusters_counted clusters pair-Separate calls 1 two refl
