-- ===== src/LeaderCtrl/Clusters/Frame.antt =====
-- A change of one cluster of client/balancer/picker/leader_ctrl.go spares the others.
use kubebrain_client.Prelude.{
  ℕ, zero, suc, ◌≡◌, ◌≢◌, refl, sym, ◌∙◌, ◌⊎◌, inl, inr, true, false, none, some, List, arith,
  Bytes, lookup, ◌==◌, get_elem?, set, get_elem?-set, Bool-cases, Option-cases,
}
use kubebrain_client.Prelude.Int.{ℤ, ◌+ℤ◌, is_pos}
use kubebrain_client.LeaderCtrl.Endpoints.{marshal_endpoints}
use kubebrain_client.LeaderCtrl.Index.{own}
use kubebrain_client.LeaderCtrl.RefCount.{own_key}
use kubebrain_client.LeaderCtrl.{LeaderRecord, LeaderCtrl, modify, close, count_cluster}
use kubebrain_client.LeaderCtrl.Clusters.{Follows}

-- Every cluster with no key in common follows the same number.
abbrev pub Spares : List Bytes → LeaderCtrl → LeaderCtrl → Type 0
Spares eps c d =
    (b : List Bytes) (m : ℕ)
    → ((k : Bytes) → own eps k ≡ true → own b k ≡ false)
    → Follows b m c
    → Follows b m d

-- The index changes at the keys of the cluster only, and to new places, and the records change at
-- the place of its key only.
pub record IsLocal (eps : List Bytes) (c d : LeaderCtrl) : Type 0 where
  pub keeps : (k : Bytes) → own eps k ≡ false → lookup k d.leader_index ≡ lookup k c.leader_index
  pub brings :
      (k : Bytes) (id : ℕ)
      → own eps k ≡ true
      → lookup k d.leader_index ≡ some id
      → (get_elem? c.records id ≡ none) ⊎ (lookup k c.leader_index ≡ some id)
  pub lives :
      (id : ℕ) (rec : LeaderRecord)
      → lookup (marshal_endpoints eps) c.leader_index ≢ some id
      → get_elem? c.records id ≡ some rec
      → get_elem? d.records id ≡ some rec

not_own :
    (a b : List Bytes) (k : Bytes)
    → ((j : Bytes) → own a j ≡ true → own b j ≡ false)
    → own b k ≡ true
    → own a k ≡ false
not_own a b k apart h = elim (Bool-cases (own a k)) [
  | inl both ↦ absurd (ground (arith, h, apart k both))
  | inr other ↦ other
]

pub IsLocal-Spares : (eps : List Bytes) (c d : LeaderCtrl) → IsLocal eps c d → Spares eps c d
IsLocal-Spares eps c d v b zero apart f = λ k h. v.keeps k (not_own eps b k apart h) ∙ f k h
IsLocal-Spares eps c d v b (suc m) apart (id, there, only, (l, e)) = (
  id,
  λ k h. v.keeps k (not_own eps b k apart h) ∙ there k h,
  λ k h. elim (Bool-cases (own eps k)) [
    | inl mine ↦ elim (v.brings k id mine h) [
      | inl fresh ↦ absurd (ground (arith, fresh, e))
      | inr old ↦ only k old
    ]
    | inr other ↦ only k (sym (v.keeps k other) ∙ h)
  ],
  (
    l,
    v.lives id _
        (λ at.
          ground
            (arith, only (marshal_endpoints eps) at, apart (marshal_endpoints eps) (own_key eps)))
        e,
  ),
)

modify_other :
    (i j : ℕ) (f : LeaderRecord → LeaderRecord) (ctrl : LeaderCtrl)
    → (i == j) ≡ false
    → get_elem? (modify i f ctrl).records j ≡ get_elem? ctrl.records j
unfolding modify
modify_other i j f ctrl other = elim (Option-cases (get_elem? ctrl.records i)) [
  | inl e ↦ rw (e, modify) refl
  | inr (rec, e) ↦ rw (e, modify) (ground (arith, other, get_elem?-set ctrl.records i (f rec) j))
]

-- Only the record of the cluster changes.
pub count_cluster_other :
    (eps : List Bytes) (amount : ℤ) (i j : ℕ) (rec : LeaderRecord) (ctrl : LeaderCtrl)
    → (i == j) ≡ false
    → get_elem? (count_cluster eps amount i rec ctrl).records j ≡ get_elem? ctrl.records j
unfolding count_cluster close
count_cluster_other eps amount i j rec ctrl other =
    let same : get_elem? (set ctrl.records i (record rec { amount = rec.amount +ℤ amount })) j
        ≡ get_elem? ctrl.records j =
      ground (
        arith,
        other,
        get_elem?-set ctrl.records i (record rec { amount = rec.amount +ℤ amount }) j,
      ) in
    elim (Bool-cases (is_pos (rec.amount +ℤ amount))) [
      | inl some_left ↦ rw some_left same
      | inr none_left ↦
          rw none_left (modify_other i j (λ r. record r { cancelled = true }) _ other ∙ same)
    ]
