-- ===== src/Picker/Rotation.antt =====
-- The readers take turns.
use native.Mathlib.Nat.{mod-lt, mod-eq_of_lt, mod-add-mod, add-mod_right}
use kubebrain_client.Prelude.{
  ℕ, zero, suc, ◌+◌, ◌-◌, ◌%◌, ◌<◌, ◌≤◌, ◌^◌, ◌≡◌, ◌∙◌, sym, ap, true, false, some, List, [], ◌∷◌,
  arith, Bytes, lookup, bytes_eq_iff, has_prefix, ltb, ◌==◌, length, get_elem?, dec_lt,
}
use kubebrain_client.Picker.Routing.{take_reader_at}
use kubebrain_client.Picker.{Address, Picker, Reads, picked, read, update_leader, take_reader, pick}

-- Some number below `l`, added to `n`, leaves the remainder `i`.
distance : (n l i : ℕ) → i < l → (j : ℕ) × (j < l) × ((n + j) % l ≡ i)
distance n l i h = elim (dec_lt i (n % l)) [
  | yes past ↦ (
    i + l - n % l,
    omega arith,
    sym (mod-add-mod n l (i + l - n % l))
        ∙ ap (λ (t : ℕ). t % l) (omega (arith, mod-lt n {m = l}))
        ∙ add-mod_right i l
        ∙ mod-eq_of_lt h,
  )
  | no ahead ↦ (
    i - n % l,
    omega arith,
    sym (mod-add-mod n l (i - n % l)) ∙ ap (λ (t : ℕ). t % l) (omega arith) ∙ mod-eq_of_lt h,
  )
]

get_elem?-lt {ℓ} :
    {A : Type ℓ} (xs : List A) (i : ℕ) {a : A} → get_elem? xs i ≡ some a → i < length xs
get_elem?-lt [] i h = cc
get_elem?-lt (x ∷ xs) zero h = omega arith
get_elem?-lt (x ∷ xs) (suc i) h = omega (arith, get_elem?-lt xs i h)

module _ {SubConn : Type 0} (order : List Address) (r : Reads) (method : Bytes) where
  -- The picker after a number of calls.
  pub after_picks : ℕ → Picker SubConn → Picker SubConn
  after_picks zero bal = bal
  after_picks (suc j) bal = after_picks j (pick order r method bal).0

  -- A picker that knows the leader and has a reader.
  pub record IsSettled (bal : Picker SubConn) : Type 0 where
    pub leader : r.fast ≡ bal.leader
    pub ready : (length bal.addr_to_sc == 0) ≡ false
    pub readers : ltb (length bal.reader_addrs) 1 ≡ false

  pick_settled :
      (bal : Picker SubConn)
      → has_prefix read method ≡ true
      → IsSettled bal
      → pick order r method bal ≡ take_reader bal
  unfolding pick update_leader
  pick_settled bal h s = ground (arith, bytes_eq_iff r.fast bal.leader)

  pick_counts :
      (bal : Picker SubConn)
      → has_prefix read method ≡ true
      → IsSettled bal
      → bal.next_reader + 1 < 2 ^ 64
      → (pick order r method bal).0 ≡ record bal { next_reader = bal.next_reader + 1 }
  unfolding take_reader
  pick_counts bal h s small =
      ap (λ o. o.0) (pick_settled bal h s)
      ∙ ap (λ k. record bal { next_reader = k }) (mod-eq_of_lt small)

  picks_count :
      (j : ℕ) (bal : Picker SubConn)
      → has_prefix read method ≡ true
      → IsSettled bal
      → bal.next_reader + j < 2 ^ 64
      → after_picks j bal ≡ record bal { next_reader = bal.next_reader + j }
  unfolding after_picks
  picks_count zero bal h s small = ap (λ k. record bal { next_reader = k }) (omega arith)
  picks_count (suc j) bal h s small =
      let more = record bal { next_reader = bal.next_reader + 1 } in
      let settled : IsSettled more = record {
        leader = s.leader;
        ready = s.ready;
        readers = s.readers;
      } in
      ap (after_picks j) (pick_counts bal h s (omega arith))
      ∙ picks_count j more h settled (omega arith)
      ∙ ap (λ k. record bal { next_reader = k }) (omega arith)

  -- Of as many reads in a row as there are readers, one goes to each reader: if the leader stays
  -- the one that the picker knows, a connection is ready, there is a reader, and the counter stays
  -- within the positive range of its type.
  pub each_reader_served :
      (bal : Picker SubConn) (i : ℕ) (a : Address)
      → has_prefix read method ≡ true
      → IsSettled bal
      → bal.next_reader + length bal.reader_addrs ≤ 2 ^ 63
      → get_elem? bal.reader_addrs i ≡ some a
      → (j : ℕ) × (j < length bal.reader_addrs)
        × ((pick order r method (after_picks j bal)).1
            ≡ picked (lookup a.addr bal.raw_addr_to_sc) a.addr)
  each_reader_served bal i a h s small at =
      let (j, below, hits) =
        distance bal.next_reader (length bal.reader_addrs) i (get_elem?-lt bal.reader_addrs i at) in
      let turn = record bal { next_reader = bal.next_reader + j } in
      let settled : IsSettled turn = record {
        leader = s.leader;
        ready = s.ready;
        readers = s.readers;
      } in
      let (b, there, out) = take_reader_at turn s.readers (omega arith) in
      let same : b ≡ a = ground (arith, ap (get_elem? bal.reader_addrs) hits) in
      (
        j,
        below,
        ap (λ p. (pick order r method p).1) (picks_count j bal h s (omega arith))
            ∙ ap (λ o. o.1) (pick_settled turn h settled)
            ∙ out
            ∙ ap (λ (c : Address). picked (lookup c.addr bal.raw_addr_to_sc) c.addr) same,
      )
