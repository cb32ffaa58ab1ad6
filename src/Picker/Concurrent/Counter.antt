-- ===== src/Picker/Concurrent/Counter.antt =====
-- How many of the calls of client/balancer/picker/rw_separated.go have returned.
use kubebrain_client.Prelude.{
  ℕ, zero, suc, ◌+◌, ◌<◌, ◌≤◌, ◌≡◌, refl, ap, ◌∙◌, false, some, List, [], ◌∷◌, ◌++◌, map, arith,
  Bytes, if◌then◌else◌, length, length-append, length-set, get_elem?, set,
}
use kubebrain_client.Picker.{unavailable, deadlock, replace_leader, writer_of, pick_reader_locked}
use kubebrain_client.Picker.Concurrent.{
  updated, returned, Call, System, has_returned, arriving, meets, after_compare, reads_now, Step,
  arrive, elect, refuse, compare, replace, end_read, jam, end_write,
}

module _ {SubConn : Type 0} where
  abbrev pub over : List (Call SubConn) → ℕ
  over [] = 0
  over (c ∷ cs) = (if has_returned c.phase then 1 else 0) + over cs

  pub over-le : (cs : List (Call SubConn)) → over cs ≤ length cs
  over-le [] = omega arith
  over-le (c ∷ cs) = ground (arith, over-le cs)

  pub over-join : (cs : List (Call SubConn)) (c : Call SubConn) → over cs ≤ over (cs ++ c ∷ [])
  over-join [] c = omega arith
  over-join (d ∷ cs) c = omega (arith, over-join cs c)

  pub over-meets : (l : Bytes) (cs : List (Call SubConn)) → over (map (meets l) cs) ≡ over cs
  over-meets l [] = refl
  over-meets l (c ∷ cs) = ap (λ n. (if has_returned c.phase then 1 else 0) + n) (over-meets l cs)

  pub length-meets : (l : Bytes) (cs : List (Call SubConn)) → length (map (meets l) cs) ≡ length cs
  length-meets l [] = refl
  length-meets l (c ∷ cs) = ap suc (length-meets l cs)

  -- A call that has not returned goes on, or returns.
  pub over-set :
      (cs : List (Call SubConn)) (i : ℕ) (c d : Call SubConn)
      → get_elem? cs i ≡ some c
      → has_returned c.phase ≡ false
      → (over (set cs i d) ≡ over cs + (if has_returned d.phase then 1 else 0))
        × (over cs < length cs)
  over-set [] i c d h e = cc
  over-set (b ∷ cs) zero c d h e =
      let same : b ≡ c = ground (arith, h) in
      let going : has_returned b.phase ≡ false =
        ap (λ (a : Call SubConn). has_returned a.phase) same ∙ e in
      rw going (omega (arith, over-le cs))
  over-set (b ∷ cs) (suc i) c d h e =
      let (grown, less) = over-set cs i c d h e in ground (arith, grown, less)

  -- Calls are never taken away.
  pub step_calls : {s t : System SubConn} → Step s t → length s.calls ≤ length t.calls
  step_calls {s} (arrive method) =
      omega (arith, length-append s.calls (arriving method s.leader ∷ []))
  step_calls {s} (elect l) = omega (arith, length-meets l s.calls)
  step_calls {s} (refuse i c h e empty) =
      omega (arith, length-set s.calls i (record c { phase = returned unavailable }))
  step_calls {s} (compare i c h e full free) =
      omega (arith, length-set s.calls i (record c { phase = after_compare s.leader s.bal }))
  step_calls {s} (replace i c order h e p free) = omega (
    arith,
    length-set s.calls i (record c { phase = updated (replace_leader order s.leader s.bal).1 }),
  )
  step_calls {s} (end_read i c l h e reads free) = omega (
    arith,
    length-set s.calls i
        (record c { phase = returned (pick_reader_locked (reads_now s.leader) s.bal).1 }),
  )
  step_calls {s} (jam i j c d l h e reads few_readers h' e' free) =
      omega (arith, length-set s.calls i (record c { phase = returned deadlock }))
  step_calls {s} (end_write i c l h e writes) =
      omega (arith, length-set s.calls i (record c { phase = returned (writer_of s.bal l) }))
