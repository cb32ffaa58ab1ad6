-- ===== src/Picker/Routing.antt =====
-- Which connection a call gets: the leader's for a write, a follower's for a read.
use mathlib.Core.List.{Perm}
use mathlib.Core.Path.{subst, subst₂}
use native.Mathlib.Nat.{mod-lt}
use kubebrain_client.Prelude.{
  ◌%◌, ◌<◌, ◌^◌, ◌≡◌, ◌≢◌, refl, ◌⊎◌, inl, inr, ◌∙◌, sym, ap, true, false, ◌&&◌, not, none, some,
  List, [], ◌∷◌, arith, Bytes, lookup, bytes_eq, bytes_eq_iff, has_prefix, ltb, ◌==◌, length,
  get_elem?, Bool-cases, get_elem?_total,
}
use kubebrain_client.Picker.{
  Address, Picker, Outcome, Reads, picked, unavailable, read, update_leader, writer_of, take_reader,
  pick,
}
use kubebrain_client.Picker.Invariant.{
  listed, addrs, Entry, listed-followers, get_elem?-listed, listed-perm, lookup-raw_addrs, IsValid,
  update_leader-IsValid, update_leader-keeps, update_leader_stable,
}

listed_some : (k : Bytes) (xs : List Address) → listed k xs ≡ true → ltb (length xs) 1 ≡ false
unfolding listed
listed_some k [] h = cc
listed_some k (x ∷ xs) h = ground arith

module _ {SubConn : Type 0} where
  -- The connections of a valid picker are those of the ready addresses.
  pub conns_of :
      (k : Bytes) (bal : Picker SubConn)
      → IsValid bal
      → ((listed k (addrs bal.addr_to_sc) ≡ true)
          × ((sc : SubConn) × (lookup k bal.raw_addr_to_sc ≡ some sc) × Entry k sc bal.addr_to_sc))
        ⊎ ((listed k (addrs bal.addr_to_sc) ≡ false) × (lookup k bal.raw_addr_to_sc ≡ none))
  unfolding lookup
  conns_of k bal v = rw v.conns (lookup-raw_addrs k bal.addr_to_sc [])

  pub none_listed :
      (k : Bytes) (ready : List (Address × SubConn))
      → (length ready == 0) ≡ true
      → listed k (addrs ready) ≡ false
  unfolding listed
  none_listed k [] h = refl
  none_listed k (e ∷ ready) h = ground arith

  -- What a call for a write comes to: the connection of the leader, if that is ready.
  abbrev pub Written : List (Address × SubConn) → Bytes → Outcome SubConn → Type 0
  Written ready leader out =
      ((listed leader (addrs ready) ≡ true)
        × ((sc : SubConn) × (out ≡ picked (some sc) leader) × Entry leader sc ready))
      ⊎ ((listed leader (addrs ready) ≡ false) × (out ≡ unavailable))

  pub writer_of-Written :
      (bal : Picker SubConn) (leader : Bytes)
      → IsValid bal
      → Written bal.addr_to_sc leader (writer_of bal leader)
  unfolding writer_of
  writer_of-Written bal leader v = elim (conns_of leader bal v) [
    | inl (l, (sc, e, t)) ↦ inl (l, (sc, rw (e, writer_of), t))
    | inr (l, e) ↦ inr (l, rw (e, writer_of))
  ]

  -- A call that is no read goes to the leader's connection, if one is ready, and is refused
  -- otherwise: in a valid picker, provided that the visit of the map takes each ready connection
  -- once and the two reads of the leader by the call agree.
  pub pick_write :
      (order : List Address) (r : Reads) (method : Bytes) (bal : Picker SubConn)
      → IsValid bal
      → Perm order (addrs bal.addr_to_sc)
      → has_prefix read method ≡ false
      → r.fast ≡ r.locked
      → Written bal.addr_to_sc r.fast (pick order r method bal).1
  pick_write order r method bal v p h stable = elim (Bool-cases (length bal.addr_to_sc == 0)) [
    | inl empty ↦ inr (none_listed r.fast bal.addr_to_sc empty, unfold pick in (ground arith))
    | inr full ↦
        let (_, leader) = update_leader_stable order r bal stable in
        let (ready, _, _) = update_leader-keeps order r bal in
        let e : writer_of (update_leader order r bal).0 r.fast ≡ (pick order r method bal).1 =
          unfold pick in (ground arith) in
        subst₂ (λ conns out. Written conns r.fast out) ready e
          (writer_of-Written (update_leader order r bal).0 r.fast
            (update_leader-IsValid order r bal p v))
  ]

  -- Once the picker has a leader, a reader is listed exactly if it is ready and not the leader.
  listed_readers :
      (k : Bytes) (bal : Picker SubConn)
      → IsValid bal
      → bal.leader ≢ []
      → listed k bal.reader_addrs ≡ (listed k (addrs bal.addr_to_sc) && not (bytes_eq k bal.leader))
  listed_readers k bal v known = elim v.readers [
    | inl (unknown, _) ↦ absurd (known unknown)
    | inr (order, p, e) ↦
        rw (e, listed-followers bal.leader k order)
          (ap (λ b. b && not (bytes_eq k bal.leader)) (listed-perm k p))
  ]

  -- With the counter below 2 ^ 63, the next reader is the one that the counter names.
  pub take_reader_at :
      (bal : Picker SubConn)
      → ltb (length bal.reader_addrs) 1 ≡ false
      → bal.next_reader < 2 ^ 63
      → (a : Address) × (get_elem? bal.reader_addrs (bal.next_reader % length bal.reader_addrs)
          ≡ some a)
        × ((take_reader bal).1 ≡ picked (lookup a.addr bal.raw_addr_to_sc) a.addr)
  unfolding take_reader
  take_reader_at bal some_reader small =
      let (a, e) =
        get_elem?_total bal.reader_addrs (bal.next_reader % length bal.reader_addrs)
          (mod-lt (bal.next_reader) (ground arith)) in
      (a, e, ground arith)

  -- What a call for a read comes to: a ready connection to another address than the leader's.
  abbrev pub Served : List (Address × SubConn) → Bytes → Outcome SubConn → Type 0
  Served ready leader out =
      (a : Bytes) × (sc : SubConn) × (out ≡ picked (some sc) a) × Entry a sc ready × (a ≢ leader)

  take_reader-Served :
      (bal : Picker SubConn)
      → IsValid bal
      → bal.leader ≢ []
      → ltb (length bal.reader_addrs) 1 ≡ false
      → bal.next_reader < 2 ^ 63
      → Served bal.addr_to_sc bal.leader (take_reader bal).1
  take_reader-Served bal v known some_reader small =
      let (a, here, out) = take_reader_at bal some_reader small in
      let there = listed_readers a.addr bal v known in
      let member =
        get_elem?-listed bal.reader_addrs (bal.next_reader % length bal.reader_addrs) here in
      let other : a.addr ≢ bal.leader = λ e. ground (arith, bytes_eq_iff a.addr bal.leader) in
      elim (conns_of a.addr bal v) [
        | inl (_, (sc, e, t)) ↦ (a.addr, sc, out ∙ ap (λ c. picked c a.addr) e, t, other)
        | inr (l, _) ↦ absurd (ground arith)
      ]

  -- A call for a read goes to a ready connection of an address that is not the leader's: in a valid
  -- picker that has made fewer than 2 ^ 63 reads, if the visit of the map takes each ready
  -- connection once, the two reads of the leader by the call agree on an address and some other
  -- address is ready.
  pub pick-read :
      (order : List Address) (r : Reads) (method : Bytes) (bal : Picker SubConn) (k : Bytes)
      → IsValid bal
      → Perm order (addrs bal.addr_to_sc)
      → has_prefix read method ≡ true
      → r.fast ≡ r.locked
      → r.fast ≢ []
      → bal.next_reader < 2 ^ 63
      → listed k (addrs bal.addr_to_sc) ≡ true
      → k ≢ r.fast
      → Served bal.addr_to_sc r.fast (pick order r method bal).1
  pick-read order r method bal k v p h stable known small ready other =
      let new = (update_leader order r bal).0 in
      let valid = update_leader-IsValid order r bal p v in
      let (leader, _) = update_leader_stable order r bal stable in
      let (conns, _, count) = update_leader-keeps order r bal in
      let has_leader : new.leader ≢ [] = λ e. known (sym leader ∙ e) in
      let follower : listed k new.reader_addrs ≡ true =
        ground (
          arith,
          listed_readers k new valid has_leader,
          bytes_eq_iff k new.leader,
          ap addrs conns,
        ) in
      let some_reader = listed_some k new.reader_addrs follower in
      let full : (length bal.addr_to_sc == 0) ≡ false =
        ground (arith, none_listed k bal.addr_to_sc) in
      let e : (take_reader new).1 ≡ (pick order r method bal).1 = unfold pick in (ground arith) in
      let served = take_reader-Served new valid has_leader some_reader (ground arith) in
      subst₂ (λ l out. Served bal.addr_to_sc l out) leader e
        (subst (λ c. Served c new.leader (take_reader new).1) conns served)
