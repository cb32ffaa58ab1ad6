-- ===== src/LeaderCtrl/Clusters/Moves.antt =====
-- What a change of the count of a cluster of client/balancer/picker/leader_ctrl.go does to that
-- cluster and to the others.
use kubebrain_client.Prelude.{
  ℕ, zero, suc, ◌≡◌, sym, ap, ◌∙◌, inl, inr, true, false, none, some, List, [], ◌∷◌, ◌++◌, arith,
  Bytes, Map, lookup, bytes_eq_refl, get_elem?_past, ◌==◌, ==_iff, length, get_elem?, get_elem?-set,
  get_elem?-last, get_elem?-append, Bool-cases,
}
use kubebrain_client.Prelude.Int.{ℤ, pos, negsuc, ◌+ℤ◌}
use kubebrain_client.LeaderCtrl.Endpoints.{marshal_endpoints, member}
use kubebrain_client.LeaderCtrl.Index.{
  Absent, Distinct, own, IsFresh, new_record, add_cluster-Enters, lookup_left,
}
use kubebrain_client.LeaderCtrl.Bounded.{Bounded}
use kubebrain_client.LeaderCtrl.RefCount.{
  own_key, counted, count_some, count_none, amount_up, amount_down,
}
use kubebrain_client.LeaderCtrl.RefCount.Spec.{one_less}
use kubebrain_client.LeaderCtrl.{
  Answer, LeaderRecord, LeaderCtrl, done, add_cluster, count_cluster, update_cluster_amount,
}
use kubebrain_client.LeaderCtrl.Clusters.{Follows}
use kubebrain_client.LeaderCtrl.Clusters.Frame.{Spares, IsLocal-Spares, count_cluster_other}

-- What a change of the count comes to.
abbrev pub Moves : List Bytes → ℤ → Answer → ℕ → LeaderCtrl → Type 0
Moves eps amount answer n c =
    (d : LeaderCtrl) × (update_cluster_amount eps amount answer c ≡ done d)
    × Follows eps n d
    × Spares eps c d

Absent-lookup :
    (eps : List Bytes) (m : Map ℕ)
    → ((k : Bytes) → member k eps ≡ true → lookup k m ≡ none)
    → Absent eps m
unfolding member
Absent-lookup [] m f = tt
Absent-lookup (ep ∷ eps) m f =
    (f ep (ground (arith, bytes_eq_refl ep)), Absent-lookup eps m (λ k h. f k (ground (arith, h))))

Follows-IsFresh :
    (eps : List Bytes) (c : LeaderCtrl)
    → Distinct eps
    → Follows eps 0 c
    → IsFresh eps c.leader_index
unfolding own
Follows-IsFresh eps c d f = record {
  key = f (marshal_endpoints eps) (own_key eps);
  absent = Absent-lookup eps c.leader_index (λ k h. f k (ground (arith, h)));
  distinct = d;
}

-- The first client: the cluster enters the index at a new place.
enters :
    (eps : List Bytes) (answer : Answer) (c : LeaderCtrl)
    → Distinct eps
    → Bounded c
    → Follows eps 0 c
    → Moves eps (pos 1) answer 1 c
enters eps answer c distinct bounded f =
    let fresh = Follows-IsFresh eps c distinct f in
    let (m, e, holds) = add_cluster-Enters eps answer c fresh in
    let first : update_cluster_amount eps (pos 1) answer c ≡ add_cluster eps answer c =
      unfold update_cluster_amount in (ground (arith, fresh)) in
    let d : LeaderCtrl = record {
      leader_index = m;
      records = c.records ++ new_record answer ∷ [];
    } in
    (
      d,
      first ∙ e,
      (
        length c.records,
        λ k h. ground (arith, holds k, h),
        λ k h. elim (Bool-cases (own eps k)) [
          | inl mine ↦ mine
          | inr other ↦
              absurd
                (omega (arith, bounded k (length c.records) (ground (arith, holds k, h, other))))
        ],
        (answer.addr, get_elem?-last c.records (new_record answer)),
      ),
      IsLocal-Spares eps c d (record {
        keeps = λ k other. ground (arith, holds k, other);
        brings = λ k id mine h. inl (ground (arith, holds k, mine, h, get_elem?_past c.records));
        lives = λ id rec away h. ground (
          arith,
          h,
          get_elem?_past c.records,
          get_elem?-append c.records (new_record answer) id,
          ==_iff id (length c.records),
        );
      }),
    )

-- Where the key of the cluster leads to a record, the others are spared.
count_cluster-Spares :
    (eps : List Bytes) (amount : ℤ) (id : ℕ) (rec : LeaderRecord) (c : LeaderCtrl)
    → lookup (marshal_endpoints eps) c.leader_index ≡ some id
    → ((k : Bytes)
        → own eps k ≡ false
        → lookup k (count_cluster eps amount id rec c).leader_index ≡ lookup k c.leader_index)
    → ((k : Bytes) (i : ℕ)
        → lookup k (count_cluster eps amount id rec c).leader_index ≡ some i
        → lookup k c.leader_index ≡ some i)
    → Spares eps c (count_cluster eps amount id rec c)
count_cluster-Spares eps amount id rec c at keeps brings =
    IsLocal-Spares eps c (count_cluster eps amount id rec c) (record {
      keeps = keeps;
      brings = λ k i mine h. inr (brings k i h);
      lives = λ i r away h. elim (Bool-cases (id == i)) [
        | inl same ↦ absurd (away (at ∙ ap (λ j. some j) ((==_iff id i).0 same)))
        | inr other ↦ count_cluster_other eps amount id i rec c other ∙ h
      ];
    })

-- One client more or less of several: the cluster is counted.
recounts :
    (eps : List Bytes) (amount : ℤ) (answer : Answer) (n m : ℕ) (c : LeaderCtrl)
    → pos (suc n) +ℤ amount ≡ pos (suc m)
    → Follows eps (suc n) c
    → Moves eps amount answer (suc m) c
recounts eps amount answer n m c total (id, there, only, (l, e)) =
    let rec : LeaderRecord = record { amount = pos (suc n); leader = l; cancelled = false } in
    let at = there (marshal_endpoints eps) (own_key eps) in
    let same = count_some eps amount id m rec c total in
    let index = ap (λ (d : LeaderCtrl). d.leader_index) same in
    (
      count_cluster eps amount id rec c,
      counted eps amount answer id rec c at e,
      (
        id,
        λ k h. ap (lookup k) index ∙ there k h,
        λ k h. only k (sym (ap (lookup k) index) ∙ h),
        (
          l,
          ap (λ (d : LeaderCtrl). get_elem? d.records id) same
              ∙ ground
                  (arith, e, get_elem?-set c.records id (record rec { amount = pos (suc m) }) id),
        ),
      ),
      count_cluster-Spares eps amount id rec c at (λ k other. ap (lookup k) index)
          (λ k i h. sym (ap (lookup k) index) ∙ h),
    )

-- The last client: the cluster leaves the index.
leaves :
    (eps : List Bytes) (answer : Answer) (c : LeaderCtrl)
    → Follows eps 1 c
    → Moves eps (negsuc 0) answer 0 c
leaves eps answer c (id, there, only, (l, e)) =
    let rec : LeaderRecord = record { amount = pos 1; leader = l; cancelled = false } in
    let at = there (marshal_endpoints eps) (own_key eps) in
    let index = count_none eps (negsuc 0) id rec c (amount_down 0) in
    (
      count_cluster eps (negsuc 0) id rec c,
      counted eps (negsuc 0) answer id rec c at e,
      λ k h. ground (arith, ap (lookup k) index, lookup_left eps c.leader_index k, h),
      count_cluster-Spares eps (negsuc 0) id rec c at
          (λ k other. ground (arith, ap (lookup k) index, lookup_left eps c.leader_index k, other))
          (λ k i h. ground (arith, ap (lookup k) index, lookup_left eps c.leader_index k, h)),
    )

pub one_more :
    (eps : List Bytes) (answer : Answer) (n : ℕ) (c : LeaderCtrl)
    → Distinct eps
    → Bounded c
    → Follows eps n c
    → Moves eps (pos 1) answer (suc n) c
one_more eps answer zero c distinct bounded f = enters eps answer c distinct bounded f
one_more eps answer (suc n) c distinct bounded f =
    recounts eps (pos 1) answer n (suc n) c (amount_up n) f

pub one_fewer :
    (eps : List Bytes) (answer : Answer) (n : ℕ) (c : LeaderCtrl)
    → Follows eps n c
    → Moves eps (negsuc 0) answer (one_less n) c
one_fewer eps answer zero c f = (
  c,
  unfold update_cluster_amount in (ground (arith, f (marshal_endpoints eps) (own_key eps))),
  f,
  λ b m apart g. g,
)
one_fewer eps answer (suc zero) c f = leaves eps answer c f
one_fewer eps answer (suc (suc n)) c f =
    recounts eps (negsuc 0) answer (suc n) n c (amount_down (suc n)) f
