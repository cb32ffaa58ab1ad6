-- ===== src/Tests/Resolver.antt =====
-- Calls of client/balancer/resolver/resolver.go for one group.
use kubebrain_client.Prelude.{
  ◌≡◌, refl, some, List, [], ◌∷◌, codes, get_elem?, lookup, insert, bytes_eq, arith,
}
use kubebrain_client.Resolver.{
  new_resolver_group, build, set_addrs, close_resolver, Group, Builder, add_resolver,
}
use kubebrain_client.Resolver.Race.{join_group, report, Stale, late_report}
use kubebrain_client.Resolver.Target.{with_group, target, dials_own_group}
use kubebrain_client.Tests.Parsers.{parse_target, parse_target-Splits}
use kubebrain_client.Resolver.Runs.{
  Op, opens, dials, sets, leaves, no_groups, apply, after, resolvers_know,
}

abbrev calls : List Op
calls =
    opens (codes "c")
    ∷ dials (codes "c")
    ∷ sets 0 (codes "a:1" ∷ [])
    ∷ dials (codes "c")
    ∷ leaves 0
    ∷ []

resolvers_know_example : get_elem? (after calls no_groups).states 1 ≡ some (codes "a:1" ∷ [])
unfolding apply new_resolver_group build set_addrs close_resolver lookup insert bytes_eq
resolvers_know_example =
    resolvers_know calls 0 (record { id = codes "c"; addrs = codes "a:1" ∷ []; resolvers = 1 ∷ [] })
      1 refl refl

dials_own_group_example :
    (crg : Group) × (get_elem? (with_group (codes "c") (codes "a:1" ∷ []) no_groups).groups 0
      ≡ some crg)
    × (c : Builder) × (build
          (parse_target (target crg)).authority
          (with_group (codes "c") (codes "a:1" ∷ []) no_groups)
        ≡ some c)
    × (crg' : Group) × (get_elem? c.groups 0 ≡ some crg')
    × (crg'.resolvers ≡ 0 ∷ [])
    × (get_elem? c.states 0 ≡ some (codes "a:1" ∷ []))
dials_own_group_example =
    dials_own_group parse_target (codes "c") (codes "a:1" ∷ []) no_groups parse_target-Splits
      (omega arith, tt)

-- The group `c` moves from a:1 to b:1 while a resolver joins it.
abbrev group_c : Group
group_c = record { id = codes "c"; addrs = codes "a:1" ∷ []; resolvers = [] }

abbrev one_group : Builder
one_group = record {
  resolver_groups = (codes "c", 0) ∷ [];
  groups = group_c ∷ [];
  endpoint_ids = [];
  states = [];
}

late_report_example :
    (report 0 (codes "a:1" ∷ []) (join_group (codes "c") 0 group_c one_group)
      ≡ add_resolver (codes "c") 0 group_c one_group)
    × Stale 0 0 (codes "a:1" ∷ []) (codes "b:1" ∷ []) (
        report 0
          (codes "a:1" ∷ [])
          (set_addrs 0 (codes "b:1" ∷ []) (join_group (codes "c") 0 group_c one_group)))
late_report_example = late_report (codes "c") 0 group_c (codes "b:1" ∷ []) one_group refl
