-- ===== src/Tests/Keys.antt =====
-- Runs of `prefixEnd` of client/util.go.
use kubebrain_client.Prelude.{◌≡◌, ◌↔◌, refl, true, [], ◌∷◌, arith, codes, IsBytes, has_prefix}
use kubebrain_client.Keys.{prefix_end}
use kubebrain_client.Keys.Prefix.{InRange, prefix_end_range}

next_pods : prefix_end (codes "/pods") ≡ codes "/podt"
unfolding prefix_end
next_pods = refl

carried : prefix_end (1 ∷ 0xff ∷ 0xff ∷ []) ≡ 2 ∷ []
unfolding prefix_end
carried = refl

no_next : prefix_end (0xff ∷ 0xff ∷ []) ≡ 0 ∷ []
unfolding prefix_end
no_next = refl

pods-IsBytes : IsBytes (codes "/pods")
pods-IsBytes = (omega arith, (omega arith, (omega arith, (omega arith, (omega arith, tt)))))

pods_a-IsBytes : IsBytes (codes "/pods/a")
pods_a-IsBytes = (
  omega arith,
  (omega arith, (omega arith, (omega arith, (omega arith, (omega arith, (omega arith, tt)))))),
)

prefix_end_range_example :
    (has_prefix (codes "/pods") (codes "/pods/a") ≡ true)
    ↔ InRange (codes "/pods") (prefix_end (codes "/pods")) (codes "/pods/a")
prefix_end_range_example =
    prefix_end_range (codes "/pods") (codes "/pods/a") pods-IsBytes pods_a-IsBytes
