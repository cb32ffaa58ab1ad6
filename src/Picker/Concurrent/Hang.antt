-- ===== src/Picker/Concurrent/Hang.antt =====
-- Calls of client/balancer/picker/rw_separated.go that wait for ever, and what waits behind them.
use kubebrain_client.Prelude.{
  All-join, All-set, ◌≡◌, refl, ◌∙◌, Bool, true, false, List, [], ◌∷◌, map, arith, Bytes, All,
  has_prefix, ltb, length,
}
use kubebrain_client.Picker.{
  Address, Picker, deadlock, unavailable, read, replace_leader, writer_of, take_reader,
  pick_reader_locked,
}
use kubebrain_client.Picker.Invariant.{IsValid}
use kubebrain_client.Picker.Concurrent.{
  Phase, begun, differs, updated, returned, Call, System, arriving, meets, is_deadlock,
  after_compare, reads_now, Step, arrive, elect, refuse, compare, replace, end_read, jam, end_write,
  Reach, here, later,
}
use kubebrain_client.Picker.Concurrent.Ends.{
  replace_leader-IsValid, replace_leader_keeps, read-IsValid,
}

none_left : (xs : List Address) → ltb (length xs) 1 ≡ true → xs ≡ []
none_left [] h = refl
none_left (x ∷ xs) h = absurd (ground (arith, h))

module _ {SubConn : Type 0} where
  abbrev pub hangs : Phase SubConn → Bool
  hangs begun = false
  hangs differs = false
  hangs (updated l) = false
  hangs (returned out) = is_deadlock out

  -- Only a read hangs, and the picker is then frozen.
  abbrev pub Known : Bool → Call SubConn → Type 0
  Known frozen c = hangs c.phase ≡ true → (has_prefix read c.method ≡ true) × (frozen ≡ true)

  pub record Inv (ready : List (Address × SubConn)) (s : System SubConn) : Type 0 where
    pub same : s.bal.addr_to_sc ≡ ready
    pub valid : IsValid s.bal
    pub idle : s.frozen ≡ true → s.bal.reader_addrs ≡ []
    pub known : All (Known s.frozen) s.calls

  writer_of_ends : (bal : Picker SubConn) (l : Bytes) → is_deadlock (writer_of bal l) ≡ false
  unfolding writer_of
  writer_of_ends bal l = ground arith

  compare_ends : (l : Bytes) (bal : Picker SubConn) → hangs (after_compare l bal) ≡ false
  unfolding after_compare
  compare_ends l bal = ground arith

  read_keeps_addrs :
      (l : Bytes) (bal : Picker SubConn)
      → (pick_reader_locked (reads_now l) bal).0.addr_to_sc ≡ bal.addr_to_sc
  unfolding pick_reader_locked take_reader
  read_keeps_addrs l bal = ground arith

  -- A read hangs in the part under the read lock only if there is no reader.
  read_hangs :
      (l : Bytes) (bal : Picker SubConn)
      → is_deadlock (pick_reader_locked (reads_now l) bal).1 ≡ true
      → (pick_reader_locked (reads_now l) bal).0.reader_addrs ≡ []
  unfolding pick_reader_locked take_reader
  read_hangs l bal h = ground (arith, none_left bal.reader_addrs, h)

  Known-meets :
      (l : Bytes) (frozen : Bool) (cs : List (Call SubConn))
      → All (Known frozen) cs
      → All (Known frozen) (map (meets l) cs)
  Known-meets l frozen [] a = tt
  Known-meets l frozen (c ∷ cs) (p, a) = (p, Known-meets l frozen cs a)

  -- As long as nothing is frozen, nothing hangs.
  Known-free :
      (frozen : Bool) (cs : List (Call SubConn)) → All (Known false) cs → All (Known frozen) cs
  Known-free frozen [] a = tt
  Known-free frozen (c ∷ cs) (p, a) =
      ((λ h. absurd (ground (arith, (p h).1))), Known-free frozen cs a)

  step-Inv :
      (ready : List (Address × SubConn)) {s t : System SubConn}
      → Step s t
      → Inv ready s
      → Inv ready t
  step-Inv ready {s} (arrive method) v = record {
    same = v.same;
    valid = v.valid;
    idle = v.idle;
    known =
        All-join (Known s.frozen) s.calls (arriving method s.leader) v.known
          (λ h. absurd (ground (arith, h)));
  }
  step-Inv ready {s} (elect l) v = record {
    same = v.same;
    valid = v.valid;
    idle = v.idle;
    known = Known-meets l s.frozen s.calls v.known;
  }
  step-Inv ready {s} (refuse i c h e empty) v = record {
    same = v.same;
    valid = v.valid;
    idle = v.idle;
    known =
        All-set (Known s.frozen) s.calls i (record c { phase = returned unavailable }) v.known
          (λ h. absurd (ground (arith, h)));
  }
  step-Inv ready {s} (compare i c h e full free) v = record {
    same = v.same;
    valid = v.valid;
    idle = v.idle;
    known =
        All-set (Known s.frozen) s.calls i (record c { phase = after_compare s.leader s.bal })
          v.known (λ h. absurd (ground (arith, h, compare_ends s.leader s.bal)));
  }
  step-Inv ready {s} (replace i c order h e p free) v = record {
    same = (replace_leader_keeps order s.leader s.bal).0 ∙ v.same;
    valid = replace_leader-IsValid order s.leader s.bal p v.valid;
    idle = λ jammed. absurd (ground (arith, free, jammed));
    known =
        All-set (Known s.frozen) s.calls i
          (record c { phase = updated (replace_leader order s.leader s.bal).1 }) v.known
          (λ h. absurd (ground (arith, h)));
  }
  step-Inv ready {s} (end_read i c l h e reads free) v =
      let out = (pick_reader_locked (reads_now s.leader) s.bal).1 in
      let none_hangs : All (Known false) s.calls = rw (← free) v.known in
      record {
        same = read_keeps_addrs s.leader s.bal ∙ v.same;
        valid = read-IsValid s.leader s.bal v.valid;
        idle = read_hangs s.leader s.bal;
        known =
            All-set (Known (is_deadlock out)) s.calls i (record c { phase = returned out })
              (Known-free (is_deadlock out) s.calls none_hangs) (λ jammed. (reads, jammed));
      }
  step-Inv ready {s} (jam i j c d l h e reads few_readers h' e' free) v =
      let none_hangs : All (Known false) s.calls = rw (← free) v.known in
      record {
        same = v.same;
        valid = v.valid;
        idle = λ jammed. none_left s.bal.reader_addrs few_readers;
        known =
            All-set (Known true) s.calls i (record c { phase = returned deadlock })
              (Known-free true s.calls none_hangs) (λ jammed. (reads, refl));
      }
  step-Inv ready {s} (end_write i c l h e writes) v = record {
    same = v.same;
    valid = v.valid;
    idle = v.idle;
    known =
        All-set (Known s.frozen) s.calls i (record c { phase = returned (writer_of s.bal l) })
          v.known (λ h. absurd (ground (arith, h, writer_of_ends s.bal l)));
  }

  pub Reach-Inv :
      (ready : List (Address × SubConn)) {s t : System SubConn}
      → Reach s t
      → Inv ready s
      → Inv ready t
  Reach-Inv ready here v = v
  Reach-Inv ready (later r st) v = step-Inv ready st (Reach-Inv ready r v)
