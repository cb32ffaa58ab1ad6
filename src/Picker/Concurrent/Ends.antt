-- ===== src/Picker/Concurrent/Ends.antt =====
-- How a step of a call of client/balancer/picker/rw_separated.go ends.
use mathlib.Core.List.{Perm}
use kubebrain_client.Prelude.{
  ◌+◌, ◌%◌, ◌^◌, ◌<◌, ◌≤◌, ◌≡◌, refl, ap, ◌∙◌, ◌⊎◌, inl, inr, true, false, some, List, arith, Bytes,
  bytes_eq, ltb, length, Bool-cases,
}
use kubebrain_client.Picker.{
  Address, Picker, Outcome, picked, unavailable, deadlock, compare_leader, replace_leader,
  pick_writer_locked, take_reader, pick_reader_locked,
}
use kubebrain_client.Picker.Invariant.{
  listed, addrs, Entry, listed-followers, get_elem?-listed, listed-perm, IsValid,
}
use kubebrain_client.Picker.Routing.{conns_of, writer_of-Written, take_reader_at}
use kubebrain_client.Picker.Concurrent.{differs, updated, after_compare, reads_now}

module _ {SubConn : Type 0} where
  -- A read gets a ready connection, or is refused, or waits for ever.
  abbrev pub ReadEnd : List (Address × SubConn) → Outcome SubConn → Type 0
  ReadEnd ready out =
      ((a : Bytes) × (sc : SubConn) × (out ≡ picked (some sc) a) × Entry a sc ready)
      ⊎ (out ≡ unavailable)
      ⊎ (out ≡ deadlock)

  -- The comparison takes the leader that it has read, or leads to the write lock.
  pub after_compare-cases :
      (leader : Bytes) (bal : Picker SubConn)
      → (after_compare leader bal ≡ updated leader) ⊎ (after_compare leader bal ≡ differs)
  unfolding after_compare
  after_compare-cases leader bal = elim (Bool-cases (bytes_eq leader bal.leader)) [
    | inl same ↦ inl (rw same refl)
    | inr other ↦ inr (rw other refl)
  ]

  pub replace_leader-IsValid :
      (order : List Address) (leader : Bytes) (bal : Picker SubConn)
      → Perm order (addrs bal.addr_to_sc)
      → IsValid bal
      → IsValid (replace_leader order leader bal).0
  unfolding replace_leader
  replace_leader-IsValid order leader bal p v = elim (Bool-cases (bytes_eq leader bal.leader)) [
    | inl same ↦ rw same v
    | inr other ↦ rw other (record { conns = v.conns; readers = inr (order, p, refl) })
  ]

  pub replace_leader_keeps :
      (order : List Address) (leader : Bytes) (bal : Picker SubConn)
      → ((replace_leader order leader bal).0.addr_to_sc ≡ bal.addr_to_sc)
        × ((replace_leader order leader bal).0.next_reader ≡ bal.next_reader)
        × ((replace_leader order leader bal).1 ≡ leader)
  unfolding replace_leader
  replace_leader_keeps order leader bal = ground arith

  -- A reader of a valid picker is ready.
  reader_ready :
      (k : Bytes) (bal : Picker SubConn)
      → IsValid bal
      → listed k bal.reader_addrs ≡ true
      → listed k (addrs bal.addr_to_sc) ≡ true
  unfolding listed
  reader_ready k bal v h = elim v.readers [
    | inl (_, e) ↦ absurd (ground (arith, ap (listed k) e, h))
    | inr (order, p, e) ↦
        ground (arith, ap (listed k) e, listed-followers bal.leader k order, listed-perm k p, h)
  ]

  take_reader-ReadEnd :
      (bal : Picker SubConn)
      → IsValid bal
      → ltb (length bal.reader_addrs) 1 ≡ false
      → bal.next_reader < 2 ^ 63
      → ReadEnd bal.addr_to_sc (take_reader bal).1
  take_reader-ReadEnd bal v some_reader small =
      let (a, here, out) = take_reader_at bal some_reader small in
      let there =
        reader_ready a.addr bal v
          (get_elem?-listed bal.reader_addrs (bal.next_reader % length bal.reader_addrs) here) in
      elim (conns_of a.addr bal v) [
        | inl (_, (sc, e, t)) ↦ inl (a.addr, sc, out ∙ ap (λ c. picked c a.addr) e, t)
        | inr (l, _) ↦ absurd (ground (arith, l, there))
      ]

  fallback-ReadEnd :
      (leader : Bytes) (bal : Picker SubConn)
      → IsValid bal
      → ReadEnd bal.addr_to_sc (pick_writer_locked (reads_now leader) bal)
  unfolding pick_writer_locked compare_leader
  fallback-ReadEnd leader bal v = elim (Bool-cases (bytes_eq leader bal.leader)) [
    | inl same ↦ rw same (elim (writer_of-Written bal leader v) [
      | inl (_, (sc, e, t)) ↦ inl (leader, sc, e, t)
      | inr (_, e) ↦ inr (inl e)
    ])
    | inr other ↦ rw other (inr (inr refl))
  ]

  -- The end of a read below 2 ^ 63 reads.
  pub read-ReadEnd :
      (leader : Bytes) (bal : Picker SubConn)
      → IsValid bal
      → bal.next_reader < 2 ^ 63
      → ReadEnd bal.addr_to_sc (pick_reader_locked (reads_now leader) bal).1
  unfolding pick_reader_locked
  read-ReadEnd leader bal v small = elim (Bool-cases (ltb (length bal.reader_addrs) 1)) [
    | inl none_there ↦ rw none_there (fallback-ReadEnd leader bal v)
    | inr some_there ↦ rw some_there (take_reader-ReadEnd bal v some_there small)
  ]

  pub read_keeps :
      (leader : Bytes) (bal : Picker SubConn)
      → bal.next_reader < 2 ^ 63
      → let new = (pick_reader_locked (reads_now leader) bal).0 in
        (new.addr_to_sc ≡ bal.addr_to_sc)
        × (new.raw_addr_to_sc ≡ bal.raw_addr_to_sc)
        × (new.leader ≡ bal.leader)
        × (new.reader_addrs ≡ bal.reader_addrs)
        × (new.next_reader ≤ bal.next_reader + 1)
  unfolding pick_reader_locked take_reader
  read_keeps leader bal small = ground arith

  pub read-IsValid :
      (leader : Bytes) (bal : Picker SubConn)
      → IsValid bal
      → IsValid (pick_reader_locked (reads_now leader) bal).0
  unfolding pick_reader_locked take_reader
  read-IsValid leader bal v = elim (Bool-cases (ltb (length bal.reader_addrs) 1)) [
    | inl none_there ↦ rw none_there v
    | inr some_there ↦ rw some_there (record { conns = v.conns; readers = v.readers })
  ]
