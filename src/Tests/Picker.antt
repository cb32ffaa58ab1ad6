-- ===== src/Tests/Picker.antt =====
-- Calls through a picker of client/balancer/picker/rw_separated.go with three connections.
use mathlib.Core.List.Perm
use kubebrain_client.Prelude.{
  ℕ, ◌≡◌, ◌↔◌, ◌<◌, ◌+◌, ◌^◌, refl, false, true, some, List, [], ◌∷◌, arith, codes, lookup, insert,
  bytes_eq, has_prefix, length, ◌==◌,
}
use kubebrain_client.Picker.{
  Address, Picker, Reads, picked, unavailable, panics, read, new, update_leader, pick,
}
use kubebrain_client.Picker.Split.{Made, after, IsSplit, picks-IsSplit}
use kubebrain_client.Picker.Rotation.{after_picks, each_reader_served}
use kubebrain_client.Picker.Hazards.{OutOfTurn, pick_panics, pick_unknown}

abbrev pub a1 : Address
a1 = record { addr = codes "a:1" }

abbrev pub b1 : Address
b1 = record { addr = codes "b:1" }

abbrev pub third : Address
third = record { addr = codes "c:1" }

abbrev pub ready : List (Address × ℕ)
ready = (a1, 1) ∷ (b1, 2) ∷ (third, 3) ∷ []

abbrev pub visit : List Address
visit = a1 ∷ b1 ∷ third ∷ []

abbrev pub led : Reads
led = record { fast = codes "b:1"; locked = codes "b:1"; again = codes "b:1" }

abbrev unled : Reads
unled = record { fast = []; locked = []; again = [] }

abbrev settled : Picker ℕ
settled = record {
  key = codes "c:1";
  leader_record = 0;
  addr_to_sc = ready;
  raw_addr_to_sc = (codes "c:1", 3) ∷ (codes "b:1", 2) ∷ (codes "a:1", 1) ∷ [];
  next_reader = 5;
  leader = codes "b:1";
  reader_addrs = a1 ∷ third ∷ [];
}

read_goes_on : (pick visit led (codes "/Read/Get") settled).1 ≡ picked (some 3) (codes "c:1")
unfolding pick has_prefix update_leader bytes_eq lookup
read_goes_on = refl

write_goes_to_leader :
    (pick visit led (codes "/Write/Create") (new 0 ready)).1 ≡ picked (some 2) (codes "b:1")
unfolding pick new has_prefix lookup update_leader bytes_eq insert
write_goes_to_leader = refl

-- A read that finds no leader, and one that finds `b`.
abbrev made : List Made
made =
    record { order = visit; reads = unled; method = codes "/Read/Get" }
    ∷ record { order = visit; reads = led; method = codes "/Read/Get" }
    ∷ []

picks-IsSplit_example :
    IsSplit (after made (new 0 ready)) × ((after made (new 0 ready)).addr_to_sc ≡ ready)
picks-IsSplit_example = picks-IsSplit 0 ready made (Perm.refl visit, (Perm.refl visit, tt))

each_reader_served_example :
    (j : ℕ) × (j < 2)
    × ((pick visit led (codes "/Read/Get") (after_picks visit led (codes "/Read/Get") j settled)).1
        ≡ picked (lookup (codes "c:1") settled.raw_addr_to_sc) (codes "c:1"))
unfolding has_prefix
each_reader_served_example =
    each_reader_served visit led (codes "/Read/Get") settled 1 third refl
      (record { leader = refl; ready = refl; readers = refl }) (omega arith) refl

pick_panics_example :
    ((pick visit led (codes "/Read/Get") (record settled { next_reader = 2 ^ 63 + 1 })).1 ≡ panics)
    ↔ (((length ready == 0) ≡ false)
        × (has_prefix read (codes "/Read/Get") ≡ true)
        × OutOfTurn (update_leader visit led (record settled { next_reader = 2 ^ 63 + 1 })).0)
pick_panics_example =
    pick_panics visit led (codes "/Read/Get") (record settled { next_reader = 2 ^ 63 + 1 })

pick_unknown_example : (pick visit unled (codes "/Read/Get") (new 0 ready)).1 ≡ unavailable
unfolding new lookup insert bytes_eq
pick_unknown_example =
    pick_unknown visit unled (codes "/Read/Get") (new 0 ready) refl refl refl refl refl
