-- ===== src/Picker/Hazards.antt =====
-- Calls of client/balancer/picker/rw_separated.go that get no connection though one is ready, and calls
-- that panic.
use native.Mathlib.Nat.{mod-lt}
use kubebrain_client.Prelude.{
  ℕ, ◌-◌, ◌%◌, ◌≤◌, ◌^◌, ◌≡◌, ◌≢◌, ◌↔◌, refl, true, false, none, some, List, [], ◌∷◌, arith, Bytes,
  lookup, bytes_eq_iff, has_prefix, ltb, ◌==◌, length, get_elem?, get_elem?_total,
}
use kubebrain_client.Picker.{
  Address, Picker, Reads, unavailable, panics, read, update_leader, take_reader, pick,
}

-- `cur`, the counter modulo the number of readers, is negative.
abbrev pub OutOfTurn : {SubConn : Type 0} → Picker SubConn → Type 0
OutOfTurn bal =
    (bal.reader_addrs ≢ [])
    × (2 ^ 63 ≤ bal.next_reader)
    × ((2 ^ 64 - bal.next_reader) % length bal.reader_addrs ≢ 0)

index_cases :
    (n : ℕ) (xs : List Address)
    → xs ≢ []
    → (x : Address) × (y : Address) × (get_elem? xs (n % length xs) ≡ some x)
      × (get_elem? xs 0 ≡ some y)
index_cases n [] h = absurd (h refl)
index_cases n (x ∷ xs) h =
    let (y, e) = get_elem?_total (x ∷ xs) (n % length (x ∷ xs)) (mod-lt n (omega arith)) in
    (y, x, e, refl)

take_reader_panics :
    {SubConn : Type 0} (bal : Picker SubConn)
    → ltb (length bal.reader_addrs) 1 ≡ false
    → ((take_reader bal).1 ≡ panics) ↔ OutOfTurn bal
unfolding take_reader
take_reader_panics bal some_reader =
    let more : bal.reader_addrs ≢ [] = λ e. ground arith in
    let (x, y, at_turn, first) = index_cases bal.next_reader bal.reader_addrs more in
    ground (arith, at_turn, first)

module _ {SubConn : Type 0} (order : List Address) (r : Reads) (method : Bytes)
    (bal : Picker SubConn) where
  -- A call panics exactly if it is a read, the picker has readers once it has looked up the leader,
  -- the counter has passed 2 ^ 63 and its distance to 2 ^ 64 is no multiple of the number of
  -- readers.
  pub pick_panics : ((pick order r method bal).1 ≡ panics) ↔ (
      ((length bal.addr_to_sc == 0) ≡ false)
      × (has_prefix read method ≡ true)
      × OutOfTurn (update_leader order r bal).0)
  unfolding pick
  pick_panics = ground (
    arith,
    take_reader_panics (update_leader order r bal).0,
    bytes_eq_iff r.again (update_leader order r bal).0.leader,
  )

  -- A picker that has met no leader and has no readers refuses every call that finds no leader,
  -- reads too, whatever connections are ready, if none is ready under the empty address.
  pub pick_unknown :
      bal.leader ≡ []
      → bal.reader_addrs ≡ []
      → lookup [] bal.raw_addr_to_sc ≡ none
      → r.fast ≡ []
      → r.again ≡ []
      → (pick order r method bal).1 ≡ unavailable
  unfolding pick update_leader
  pick_unknown no_leader no_readers no_conn fast again =
      ground (arith, bytes_eq_iff r.fast bal.leader, bytes_eq_iff r.again bal.leader)
