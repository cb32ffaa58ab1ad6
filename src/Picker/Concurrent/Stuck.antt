-- ===== src/Picker/Concurrent/Stuck.antt =====
-- What a call of client/balancer/picker/rw_separated.go that waits for ever does to all others.
use kubebrain_client.Prelude.{ℕ, ◌≡◌, ◌⊎◌, Bool, true, false, some, List, [], ◌∷◌, get_elem?}
use kubebrain_client.Picker.Concurrent.{Phase, begun, differs, updated, returned, Call, System}

module _ {SubConn : Type 0} where
  -- The call has got through `updateLeader`.
  abbrev pub is_past : Phase SubConn → Bool
  is_past begun = false
  is_past differs = false
  is_past (updated l) = true
  is_past (returned out) = true

  -- A call has not got through `updateLeader`, or had done so in the earlier list, at its place.
  abbrev Trails : List (Call SubConn) → List (Call SubConn) → Type 0
  Trails cs [] = Unit
  Trails [] (d ∷ ds) = (is_past d.phase ≡ false) × Trails [] ds
  Trails (c ∷ cs) (d ∷ ds) = ((is_past d.phase ≡ false) ⊎ (is_past c.phase ≡ true)) × Trails cs ds

  abbrev pub Behind : List (Call SubConn) → ℕ → Call SubConn → Type 0
  Behind cs j d =
      (is_past d.phase ≡ false)
      ⊎ ((c : Call SubConn) × (get_elem? cs j ≡ some c) × (is_past c.phase ≡ true))

  record Stuck (s t : System SubConn) : Type 0 where
    frozen : t.frozen ≡ true
    bal : t.bal ≡ s.bal
    trails : Trails s.calls t.calls
