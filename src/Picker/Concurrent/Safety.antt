-- ===== src/Picker/Concurrent/Safety.antt =====
-- What the calls of client/balancer/picker/rw_separated.go that run at the same time come to.
use mathlib.Core.Path.{subst}
use kubebrain_client.Prelude.{
  All-join, All-set, All-get, ℕ, ◌^◌, ◌<◌, ◌≤◌, ◌≡◌, refl, ap, ◌∙◌, ◌⊎◌, inl, inr, Bool, true,
  false, some, List, [], ◌∷◌, map, arith, Bytes, All, has_prefix, ◌==◌, if◌then◌else◌, length,
  get_elem?, set,
}
use kubebrain_client.Picker.{
  Address, Picker, Outcome, unavailable, deadlock, read, new, replace_leader, writer_of,
  pick_reader_locked,
}
use kubebrain_client.Picker.Invariant.{listed, addrs, IsValid, new-IsValid}
use kubebrain_client.Picker.Routing.{Written, none_listed, writer_of-Written}
use kubebrain_client.Picker.Concurrent.{
  Phase, begun, differs, updated, returned, Call, System, has_returned, arriving, meets,
  after_compare, reads_now, Step, arrive, elect, refuse, compare, replace, end_read, jam, end_write,
  Reach, here, later, fresh,
}
use kubebrain_client.Picker.Concurrent.Ends.{
  ReadEnd, after_compare-cases, replace_leader-IsValid, replace_leader_keeps, read-ReadEnd,
  read_keeps, read-IsValid,
}
use kubebrain_client.Picker.Concurrent.Counter.{over, over-join, over-meets, over-set, step_calls}

-- The leader is one of the list.
abbrev pub Met : Bytes → List Bytes → Type 0
Met l [] = ⊥
Met l (x ∷ met) = (x ≡ l) ⊎ Met l met

module _ {SubConn : Type 0} (ready : List (Address × SubConn)) where
  -- A write goes to the leader that the record has had at some time of the call, if it is ready.
  abbrev pub Ends : Bool → List Bytes → Outcome SubConn → Type 0
  Ends true met out = ReadEnd ready out
  Ends false met out = (l : Bytes) × Met l met × Written ready l out

  abbrev pub Right : Bytes → Bool → List Bytes → Phase SubConn → Type 0
  Right leader reads met begun = Met leader met
  Right leader reads met differs = Met leader met
  Right leader reads met (updated l) = Met leader met × Met l met
  Right leader reads met (returned out) = Ends reads met out

  abbrev pub IsRight : Bytes → Call SubConn → Type 0
  IsRight leader c = Right leader (has_prefix read c.method) c.met c.phase

  record Inv (s : System SubConn) : Type 0 where
    same : s.bal.addr_to_sc ≡ ready
    valid : IsValid s.bal
    right : All (IsRight s.leader) s.calls
    counted : s.bal.next_reader ≤ over s.calls

  -- The record gets another leader.
  Right-meets :
      (l leader : Bytes) (reads : Bool) (met : List Bytes) (phase : Phase SubConn)
      → Right leader reads met phase
      → Right l reads (if has_returned phase then met else l ∷ met) phase
  Right-meets l leader reads met begun r = inl refl
  Right-meets l leader reads met differs r = inl refl
  Right-meets l leader reads met (updated k) r = (inl refl, inr r.1)
  Right-meets l leader reads met (returned out) r = r

  All-meets :
      (l leader : Bytes) (cs : List (Call SubConn))
      → All (IsRight leader) cs
      → All (IsRight l) (map (meets l) cs)
  All-meets l leader [] a = tt
  All-meets l leader (c ∷ cs) a =
      (Right-meets l leader (has_prefix read c.method) c.met c.phase a.0, All-meets l leader cs a.1)

  -- A call goes on to a phase that is right for it.
  goes_on :
      (s : System SubConn) (i : ℕ) (c : Call SubConn) (phase : Phase SubConn)
      → Inv s
      → Right s.leader (has_prefix read c.method) c.met phase
      → All (IsRight s.leader) (set s.calls i (record c { phase = phase }))
  goes_on s i c phase v r =
      All-set (IsRight s.leader) s.calls i (record c { phase = phase }) v.right r

  at_call :
      (s : System SubConn) (i : ℕ) (c : Call SubConn) (phase : Phase SubConn)
      → get_elem? s.calls i ≡ some c
      → c.phase ≡ phase
      → Inv s
      → Right s.leader (has_prefix read c.method) c.met phase
  at_call s i c phase h e v =
      subst (Right s.leader (has_prefix read c.method) c.met) e
        (All-get (IsRight s.leader) s.calls i c h v.right)

  -- No fewer calls have returned.
  more_over :
      (s : System SubConn) (i : ℕ) (c : Call SubConn) (phase : Phase SubConn)
      → get_elem? s.calls i ≡ some c
      → has_returned c.phase ≡ false
      → over s.calls ≤ over (set s.calls i (record c { phase = phase }))
  more_over s i c phase h going =
      omega (arith, over-set s.calls i c (record c { phase = phase }) h going)

  refused :
      (leader : Bytes) (reads : Bool) (met : List Bytes)
      → listed leader (addrs ready) ≡ false
      → Met leader met
      → Ends reads met unavailable
  refused leader true met l m = inr (inl refl)
  refused leader false met l m = (leader, m, inr (l, refl))

  compared :
      (leader : Bytes) (bal : Picker SubConn) (reads : Bool) (met : List Bytes)
      → Met leader met
      → Right leader reads met (after_compare leader bal)
  compared leader bal reads met m = elim (after_compare-cases leader bal) [
    | inl e ↦ rw e (m, m)
    | inr e ↦ rw e m
  ]

  step-Inv : {s t : System SubConn} → Step s t → length s.calls ≤ 2 ^ 63 → Inv s → Inv t
  step-Inv {s} (arrive method) few v = record {
    same = v.same;
    valid = v.valid;
    right = All-join (IsRight s.leader) s.calls (arriving method s.leader) v.right (inl refl);
    counted = omega (arith, v.counted, over-join s.calls (arriving method s.leader));
  }
  step-Inv {s} (elect l) few v = record {
    same = v.same;
    valid = v.valid;
    right = All-meets l s.leader s.calls v.right;
    counted = omega (arith, v.counted, over-meets l s.calls);
  }
  step-Inv {s} (refuse i c h e empty) few v = record {
    same = v.same;
    valid = v.valid;
    right = goes_on s i c (returned unavailable) v (
        refused s.leader (has_prefix read c.method) c.met
          (none_listed s.leader ready (subst (λ r. (length r == 0) ≡ true) v.same empty))
          (at_call s i c begun h e v));
    counted =
        omega (arith, v.counted, more_over s i c (returned unavailable) h (ap has_returned e));
  }
  step-Inv {s} (compare i c h e full free) few v = record {
    same = v.same;
    valid = v.valid;
    right =
        goes_on s i c (after_compare s.leader s.bal) v
          (compared s.leader s.bal (has_prefix read c.method) c.met (at_call s i c begun h e v));
    counted =
        omega
          (arith, v.counted, more_over s i c (after_compare s.leader s.bal) h (ap has_returned e));
  }
  step-Inv {s} (replace i c order h e p free) few v =
      let (conns, count, now) = replace_leader_keeps order s.leader s.bal in
      record {
        same = conns ∙ v.same;
        valid = replace_leader-IsValid order s.leader s.bal p v.valid;
        right =
            goes_on s i c (updated (replace_leader order s.leader s.bal).1) v
              (rw now (at_call s i c differs h e v, at_call s i c differs h e v));
        counted = omega (
          arith,
          v.counted,
          count,
          more_over s i c (updated (replace_leader order s.leader s.bal).1) h (ap has_returned e),
        );
      }
  step-Inv {s} (end_read i c l h e reads free) few v =
      let out = (pick_reader_locked (reads_now s.leader) s.bal).1 in
      let (grown, less) =
        over-set s.calls i c (record c { phase = returned out }) h (ap has_returned e) in
      let small : s.bal.next_reader < 2 ^ 63 = omega (arith, v.counted) in
      let (conns, _, _, _, count) = read_keeps s.leader s.bal small in
      record {
        same = conns ∙ v.same;
        valid = read-IsValid s.leader s.bal v.valid;
        right = goes_on s i c (returned out) v (
            rw reads
              (subst (λ r. ReadEnd r out) v.same (read-ReadEnd s.leader s.bal v.valid small)));
        counted = omega (arith, v.counted, grown, count);
      }
  step-Inv {s} (jam i j c d l h e reads few_readers h' e' free) few v = record {
    same = v.same;
    valid = v.valid;
    right = goes_on s i c (returned deadlock) v (rw reads (inr (inr refl)));
    counted = omega (arith, v.counted, more_over s i c (returned deadlock) h (ap has_returned e));
  }
  step-Inv {s} (end_write i c l h e writes) few v = record {
    same = v.same;
    valid = v.valid;
    right = goes_on s i c (returned (writer_of s.bal l)) v (
        rw writes (
          l,
          (at_call s i c (updated l) h e v).1,
          subst (λ r. Written r l (writer_of s.bal l)) v.same (writer_of-Written s.bal l v.valid),
        ));
    counted =
        omega
          (arith, v.counted, more_over s i c (returned (writer_of s.bal l)) h (ap has_returned e));
  }

  Reach-Inv : {s t : System SubConn} → Reach s t → length t.calls ≤ 2 ^ 63 → Inv s → Inv t
  Reach-Inv here few v = v
  Reach-Inv (later {t = t} r st) few v =
      let fewer : length t.calls ≤ 2 ^ 63 = omega (arith, step_calls st) in
      step-Inv st fewer (Reach-Inv r fewer v)

  -- Whatever calls of Pick run at the same time through a new picker, their steps interleaved in
  -- any order with changes of the leader, the picker stays valid over the same ready connections,
  -- and each call that has come to its end did so rightly: a read got a ready connection, or was
  -- refused, or waits for ever, for its own lock or behind a call that waits for that, and did not
  -- panic; any other call got the connection of a leader that the record has had during the call,
  -- or was refused if none of that leader is ready: if no more than 2 ^ 63 calls have been made and
  -- each visit of the map takes each ready connection once.
  pub concurrent_picks :
      (rec : ℕ) (leader : Bytes) (s : System SubConn) (i : ℕ) (c : Call SubConn)
      (out : Outcome SubConn)
      → Reach (fresh rec ready leader) s
      → length s.calls ≤ 2 ^ 63
      → get_elem? s.calls i ≡ some c
      → c.phase ≡ returned out
      → IsValid s.bal × (s.bal.addr_to_sc ≡ ready) × Ends (has_prefix read c.method) c.met out
  unfolding new
  concurrent_picks rec leader s i c out r few h e =
      let start : Inv (fresh rec ready leader) = record {
        same = refl;
        valid = new-IsValid rec ready;
        right = tt;
        counted = omega arith;
      } in
      let v = Reach-Inv r few start in (v.valid, v.same, at_call s i c (returned out) h e v)
