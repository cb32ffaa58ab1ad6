-- ===== src/Tests/Concurrent.antt =====
-- A write and a change of the leader at the same time, in client/balancer/picker/rw_separated.go.
use mathlib.Core.List.Perm
use kubebrain_client.Prelude.{
  ℕ, ◌≡◌, refl, arith, false, true, some, [], ◌∷◌, Bytes, codes, bytes_eq, has_prefix, lookup,
  insert,
}
use kubebrain_client.Picker.{
  Picker, deadlock, picked, read, new, replace_leader, followers, writer_of, pick_reader_locked,
}
use kubebrain_client.Picker.Invariant.{IsValid}
use kubebrain_client.Picker.Concurrent.{
  begun, differs, updated, returned, Call, System, after_compare, arrive, elect, compare, replace,
  end_read, end_write, Reach, here, later, fresh,
}
use kubebrain_client.Picker.Concurrent.Safety.{Ends, concurrent_picks}
use kubebrain_client.Tests.Picker.{b1, third, ready, visit}

abbrev writes : Bytes
writes = codes "/Write/Create"

abbrev led_by_a : Picker ℕ
led_by_a = record (new 0 ready) { leader = codes "a:1"; reader_addrs = b1 ∷ third ∷ [] }

abbrev written : Call ℕ
written = record {
  method = writes;
  phase = returned (picked (some 1) (codes "a:1"));
  met = codes "a:1" ∷ codes "b:1" ∷ [];
}

abbrev over : System ℕ
over = record { bal = led_by_a; leader = codes "a:1"; calls = written ∷ []; frozen = false }

-- The leader moves from `b` to `a` when the call waits for the write lock.
run_over : Reach (fresh 0 ready (codes "b:1")) over
unfolding after_compare replace_leader followers writer_of bytes_eq new has_prefix lookup insert
run_over =
    later
      (later
        (later
          (later (later here (arrive writes)) (
            compare 0 (record { method = writes; phase = begun; met = codes "b:1" ∷ [] }) refl refl
              refl refl))
          (elect (codes "a:1")))
        (replace 0
          (record { method = writes; phase = differs; met = codes "a:1" ∷ codes "b:1" ∷ [] }) visit
          refl refl (Perm.refl visit) refl))
      (end_write 0
        (record {
          method = writes;
          phase = updated (codes "a:1");
          met = codes "a:1" ∷ codes "b:1" ∷ [];
        })
        (codes "a:1") refl refl refl)

concurrent_picks_example :
    IsValid led_by_a
    × (led_by_a.addr_to_sc ≡ ready)
    × Ends ready (has_prefix read writes) written.met (picked (some 1) (codes "a:1"))
concurrent_picks_example =
    concurrent_picks ready 0 (codes "b:1") over 0 written (picked (some 1) (codes "a:1")) run_over
      (omega arith) refl refl

abbrev reads : Bytes
reads = codes "/Read/Get"

-- A read has met no leader, a write waits for the lock, and the read asks for the lock again.
abbrev hung_read : Call ℕ
hung_read = record { method = reads; phase = returned deadlock; met = codes "b:1" ∷ [] ∷ [] }

abbrev held_write : Call ℕ
held_write = record { method = writes; phase = differs; met = codes "b:1" ∷ [] }

abbrev late_read : Call ℕ
late_read = record { method = reads; phase = begun; met = codes "b:1" ∷ [] }

abbrev jammed : System ℕ
jammed = record {
  bal = new 0 ready;
  leader = codes "b:1";
  calls = hung_read ∷ held_write ∷ [];
  frozen = true;
}

abbrev after_jam : System ℕ
after_jam = record jammed { calls = hung_read ∷ held_write ∷ late_read ∷ [] }

-- The leader becomes known between the read's comparison and its end.
run_own_lock :
    Reach
      (fresh 0 ready [])
      (record { bal = new 0 ready; leader = codes "b:1"; calls = hung_read ∷ []; frozen = true })
unfolding after_compare bytes_eq new has_prefix pick_reader_locked
run_own_lock =
    later
      (later
        (later (later here (arrive reads))
          (compare 0 (record { method = reads; phase = begun; met = [] ∷ [] }) refl refl refl refl))
        (elect (codes "b:1")))
      (end_read 0 (record { method = reads; phase = updated []; met = codes "b:1" ∷ [] ∷ [] }) []
        refl refl refl refl)
