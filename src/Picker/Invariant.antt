-- ===== src/Picker/Invariant.antt =====
-- What holds of a picker between two calls, and what a call finds then.
use mathlib.Core.List.{Perm, Permᴰ}
use mathlib.Core.Logic.{∥∥₁_elim}
use mathlib.Core.Bool.{Bool-set}
use kubebrain_client.Prelude.{
  ℕ, zero, suc, ◌+◌, ◌%◌, ◌^◌, ◌≡◌, ◌≢◌, refl, ◌⊎◌, inl, inr, ◌∙◌, Bool, true, false, ◌||◌, ◌&&◌,
  not, some, List, [], ◌∷◌, map, arith, Bytes, Map, lookup, insert, lookup-insert, bytes_eq,
  bytes_eq_iff, get_elem?, Bool-cases,
}
use kubebrain_client.Picker.{Address, Picker, Reads, followers, raw_addrs, new, update_leader, pick}

-- Whether an address is in the list.
unfoldable pub listed : Bytes → List Address → Bool
listed k [] = false
listed k (a ∷ order) = bytes_eq a.addr k || listed k order

abbrev pub addrs : {SubConn : Type 0} → List (Address × SubConn) → List Address
addrs = map (λ e. e.0)

-- Connection `sc` is ready for address `k`.
abbrev pub Entry : {SubConn : Type 0} → Bytes → SubConn → List (Address × SubConn) → Type 0
Entry k sc [] = ⊥
Entry k sc ((a, s) ∷ ready) = ((a.addr ≡ k) × (s ≡ sc)) ⊎ Entry k sc ready

pub listed-followers :
    (cur k : Bytes) (order : List Address)
    → listed k (followers cur order) ≡ (listed k order && not (bytes_eq k cur))
unfolding listed followers
listed-followers cur k [] = refl
listed-followers cur k (a ∷ order) = ground (
  arith,
  bytes_eq_iff a.addr cur,
  bytes_eq_iff a.addr k,
  bytes_eq_iff k cur,
  listed-followers cur k order,
)

pub get_elem?-listed :
    (xs : List Address) (i : ℕ) {a : Address} → get_elem? xs i ≡ some a → listed a.addr xs ≡ true
unfolding listed
get_elem?-listed [] i h = cc
get_elem?-listed (x ∷ xs) zero {a} h = ground (arith, bytes_eq_iff x.addr a.addr)
get_elem?-listed (x ∷ xs) (suc i) {a} h = ground (arith, get_elem?-listed xs i {a = a} h)

listed-permᴰ : (k : Bytes) {xs ys : List Address} → Permᴰ xs ys → listed k xs ≡ listed k ys
unfolding listed
listed-permᴰ k Permᴰ.nil = refl
listed-permᴰ k (Permᴰ.cons e p) = ground (arith, listed-permᴰ k p)
listed-permᴰ k (Permᴰ.swap e f) = ground arith
listed-permᴰ k (Permᴰ.trans p q) = listed-permᴰ k p ∙ listed-permᴰ k q

pub listed-perm : (k : Bytes) {xs ys : List Address} → Perm xs ys → listed k xs ≡ listed k ys
listed-perm k {xs} {ys} p = ∥∥₁_elim p (Bool-set (listed k xs) (listed k ys)) (listed-permᴰ k)

-- The index of connections has the last one of each address.
pub lookup-raw_addrs :
    {SubConn : Type 0} (k : Bytes) (ready : List (Address × SubConn)) (m : Map SubConn)
    → ((listed k (addrs ready) ≡ true)
        × ((sc : SubConn) × (lookup k (raw_addrs ready m) ≡ some sc) × Entry k sc ready))
      ⊎ ((listed k (addrs ready) ≡ false) × (lookup k (raw_addrs ready m) ≡ lookup k m))
unfolding listed raw_addrs
lookup-raw_addrs k [] m = inr (refl, refl)
lookup-raw_addrs k ((a, s) ∷ ready) m = elim (lookup-raw_addrs k ready (insert a.addr s m)) [
  | inl (l, (sc, e, t)) ↦ inl (ground arith, (sc, e, inr t))
  | inr (l, e) ↦ elim (Bool-cases (bytes_eq a.addr k)) [
    | inl hit ↦ inl (
      ground arith,
      (s, ground (arith, lookup-insert a.addr k s m), inl ((bytes_eq_iff a.addr k).0 hit, refl)),
    )
    | inr miss ↦ inr (ground arith, ground (arith, lookup-insert a.addr k s m))
  ]
]

module _ {SubConn : Type 0} where
  -- Either the picker has not met a leader yet, or its readers are the ready addresses but that of
  -- the leader, in the order of some visit.
  abbrev pub ReadersOf : Picker SubConn → Type 0
  ReadersOf bal =
      ((bal.leader ≡ []) × (bal.reader_addrs ≡ []))
      ⊎ ((order : List Address) × Perm order (addrs bal.addr_to_sc)
          × (bal.reader_addrs ≡ followers bal.leader order))

  pub record IsValid (bal : Picker SubConn) : Type 0 where
    pub conns : bal.raw_addr_to_sc ≡ raw_addrs bal.addr_to_sc []
    pub readers : ReadersOf bal

  pub new-IsValid : (rec : ℕ) (ready : List (Address × SubConn)) → IsValid (new rec ready)
  unfolding new
  new-IsValid rec ready = record { conns = refl; readers = inl (refl, refl) }

  -- `updateLeader` leaves the picker alone where it finds the leader unchanged, in one of its two
  -- comparisons, and otherwise takes the leader that it read under the lock.
  pub update_leader-cases :
      (order : List Address) (r : Reads) (bal : Picker SubConn)
      → (update_leader order r bal ≡ (bal, bal.leader))
        ⊎ ((update_leader order r bal ≡ (
          record bal { leader = r.locked; reader_addrs = followers r.locked order },
          r.locked,
        ))
            × (r.locked ≢ bal.leader)
            × (r.fast ≢ bal.leader))
  unfolding update_leader
  update_leader-cases order r bal =
      ground (arith, bytes_eq_iff r.fast bal.leader, bytes_eq_iff r.locked bal.leader)

  pub update_leader-IsValid :
      (order : List Address) (r : Reads) (bal : Picker SubConn)
      → Perm order (addrs bal.addr_to_sc)
      → IsValid bal
      → IsValid (update_leader order r bal).0
  update_leader-IsValid order r bal p v = elim (update_leader-cases order r bal) [
    | inl e ↦ rw e v
    | inr (e, _, _) ↦ rw e (record { conns = v.conns; readers = inr (order, p, refl) })
  ]

  -- The picker after `Pick`.
  pub pick_state :
      (order : List Address) (r : Reads) (method : Bytes) (bal : Picker SubConn)
      → let new = (update_leader order r bal).0 in
        let after = (pick order r method bal).0 in
        (after ≡ bal)
        ⊎ (after ≡ new)
        ⊎ (after ≡ record new { next_reader = (new.next_reader + 1) % 2 ^ 64 })
  unfolding pick
  pick_state order r method bal = ground arith

  pub update_leader-keeps :
      (order : List Address) (r : Reads) (bal : Picker SubConn)
      → let new = (update_leader order r bal).0 in
        (new.addr_to_sc ≡ bal.addr_to_sc)
        × (new.raw_addr_to_sc ≡ bal.raw_addr_to_sc)
        × (new.next_reader ≡ bal.next_reader)
  update_leader-keeps order r bal = ground (arith, update_leader-cases order r bal)

  -- If the leader does not change between the two reads, it is the one that the picker then has.
  pub update_leader_stable :
      (order : List Address) (r : Reads) (bal : Picker SubConn)
      → r.fast ≡ r.locked
      → ((update_leader order r bal).0.leader ≡ r.fast) × ((update_leader order r bal).1 ≡ r.fast)
  unfolding update_leader
  update_leader_stable order r bal h =
      ground (arith, bytes_eq_iff r.fast bal.leader, bytes_eq_iff r.locked bal.leader)

  -- Every call of Pick keeps the picker valid, if the visit of the map takes each ready connection
  -- once: its index of connections is that of the ready ones, and, once it has met a leader, its
  -- readers are the ready addresses but the leader's.
  pub pick-IsValid :
      (order : List Address) (r : Reads) (method : Bytes) (bal : Picker SubConn)
      → Perm order (addrs bal.addr_to_sc)
      → IsValid bal
      → IsValid (pick order r method bal).0
  pick-IsValid order r method bal p v = elim (pick_state order r method bal) [
    | inl e ↦ rw e v
    | inr (inl e) ↦ rw e (update_leader-IsValid order r bal p v)
    | inr (inr e) ↦
        let u = update_leader-IsValid order r bal p v in
        rw e (record { conns = u.conns; readers = u.readers })
  ]
