-- ===== src/Picker/Split.antt =====
-- Which connections the picker of client/balancer/picker/rw_separated.go holds for reads and for the
-- leader, after any calls.
use mathlib.Core.List.{Perm, Permᴰ}
use mathlib.Core.Logic.{∥∥₁_elim}
use native.Mathlib.Nat.{ℕ_set}
use kubebrain_client.Prelude.{
  ℕ, ◌+◌, ◌≡◌, refl, ◌⊎◌, inl, inr, ◌∙◌, ap, false, none, some, List, [], ◌∷◌, arith, All, Bytes,
  lookup, bytes_eq, bytes_eq_iff, if◌then◌else◌,
}
use kubebrain_client.Picker.{Address, Picker, Reads, followers, new, pick}
use kubebrain_client.Picker.Invariant.{
  listed, addrs, Entry, IsValid, new-IsValid, pick_state, update_leader-keeps, pick-IsValid,
  lookup-raw_addrs,
}

-- How many times an address is in the list.
abbrev pub occurs : Bytes → List Address → ℕ
occurs k [] = 0
occurs k (a ∷ order) = (if bytes_eq a.addr k then 1 else 0) + occurs k order

module _ {SubConn : Type 0} where
  -- For each address: it is a reader as often as it is ready, but not if it is the leader's.
  abbrev pub ReadersApart : Picker SubConn → Type 0
  ReadersApart bal =
      (k : Bytes)
      → occurs k bal.reader_addrs
        ≡ (if bytes_eq k bal.leader then 0 else occurs k (addrs bal.addr_to_sc))

  -- The index leads from each ready address to a connection that is ready for it, and from no other
  -- address anywhere.
  abbrev pub Indexes : Picker SubConn → Type 0
  Indexes bal =
      (k : Bytes)
      → ((sc : SubConn) × (lookup k bal.raw_addr_to_sc ≡ some sc) × Entry k sc bal.addr_to_sc)
        ⊎ ((lookup k bal.raw_addr_to_sc ≡ none) × (occurs k (addrs bal.addr_to_sc) ≡ 0))

  pub record IsSplit (bal : Picker SubConn) : Type 0 where
    pub conns : Indexes bal
    pub readers : ((bal.leader ≡ []) × (bal.reader_addrs ≡ [])) ⊎ ReadersApart bal

occurs-followers :
    (cur k : Bytes) (order : List Address)
    → occurs k (followers cur order) ≡ (if bytes_eq k cur then 0 else occurs k order)
unfolding followers
occurs-followers cur k [] = ground arith
occurs-followers cur k (a ∷ order) = ground (
  arith,
  bytes_eq_iff a.addr cur,
  bytes_eq_iff a.addr k,
  bytes_eq_iff k cur,
  occurs-followers cur k order,
)

occurs-permᴰ : (k : Bytes) {xs ys : List Address} → Permᴰ xs ys → occurs k xs ≡ occurs k ys
occurs-permᴰ k Permᴰ.nil = refl
occurs-permᴰ k (Permᴰ.cons e p) = ground (arith, occurs-permᴰ k p)
occurs-permᴰ k (Permᴰ.swap e f) = ground arith
occurs-permᴰ k (Permᴰ.trans p q) = occurs-permᴰ k p ∙ occurs-permᴰ k q

occurs-perm : (k : Bytes) {xs ys : List Address} → Perm xs ys → occurs k xs ≡ occurs k ys
occurs-perm k {xs} {ys} p = ∥∥₁_elim p (ℕ_set (occurs k xs) (occurs k ys)) (occurs-permᴰ k)

occurs-unlisted : (k : Bytes) (xs : List Address) → listed k xs ≡ false → occurs k xs ≡ 0
unfolding listed
occurs-unlisted k [] h = refl
occurs-unlisted k (x ∷ xs) h = ground (arith, occurs-unlisted k xs, h)

-- A call: the visit of the map, the reads of the leader record and the method.
pub record Made : Type 0 where
  pub order : List Address
  pub reads : Reads
  pub method : Bytes

module _ {SubConn : Type 0} where
  abbrev pub after : List Made → Picker SubConn → Picker SubConn
  after [] bal = bal
  after (m ∷ made) bal = after made (pick m.order m.reads m.method bal).0

  pub IsValid-IsSplit : (bal : Picker SubConn) → IsValid bal → IsSplit bal
  unfolding lookup
  IsValid-IsSplit bal v = record {
    conns = λ k. rw v.conns (elim (lookup-raw_addrs k bal.addr_to_sc []) [
      | inl (_, e) ↦ inl e
      | inr (l, e) ↦ inr (e, occurs-unlisted k (addrs bal.addr_to_sc) l)
    ]);
    readers = elim v.readers [
      | inl e ↦ inl e
      | inr (order, p, e) ↦ inr (λ k.
          ap (occurs k) e ∙ occurs-followers bal.leader k order ∙ ground (arith, occurs-perm k p))
    ];
  }

  pick_keeps :
      (m : Made) (bal : Picker SubConn)
      → (pick m.order m.reads m.method bal).0.addr_to_sc ≡ bal.addr_to_sc
  pick_keeps m bal =
      ground
        (arith, pick_state m.order m.reads m.method bal, update_leader-keeps m.order m.reads bal)

  after-IsValid :
      (ready : List (Address × SubConn)) (made : List Made) (bal : Picker SubConn)
      → All (λ m. Perm m.order (addrs ready)) made
      → bal.addr_to_sc ≡ ready
      → IsValid bal
      → IsValid (after made bal) × ((after made bal).addr_to_sc ≡ ready)
  after-IsValid ready [] bal a e v = (v, e)
  after-IsValid ready (m ∷ made) bal (p, a) e v =
      after-IsValid ready made (pick m.order m.reads m.method bal).0 a (pick_keeps m bal ∙ e)
        (pick-IsValid m.order m.reads m.method bal (rw e p) v)

  -- After any calls of Pick through a new picker, with whatever leaders they read, the ready
  -- connections are the same, the index leads from each ready address to a connection that is ready
  -- for it and from no other address anywhere, and either the picker has no leader and no readers,
  -- or each ready address other than the leader's is a reader as often as it is ready, and no other
  -- address is a reader: if the visit of the map by each call takes each ready connection once.
  pub picks-IsSplit :
      (rec : ℕ) (ready : List (Address × SubConn)) (made : List Made)
      → All (λ m. Perm m.order (addrs ready)) made
      → IsSplit (after made (new rec ready)) × ((after made (new rec ready)).addr_to_sc ≡ ready)
  unfolding new
  picks-IsSplit rec ready made a =
      let (v, same) = after-IsValid ready made (new rec ready) a refl (new-IsValid rec ready) in
      (IsValid-IsSplit (after made (new rec ready)) v, same)
