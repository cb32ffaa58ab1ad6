-- ===== src/Resolver/Race.antt =====
-- The two halves of `addResolver` of client/balancer/resolver/resolver.go: the first holds the lock of the
-- group, the second does not.
use kubebrain_client.Prelude.{
  ℕ, ◌≡◌, refl, ap, true, some, List, [], ◌∷◌, ◌++◌, arith, Bytes, length, get_elem?, set,
  get_elem?-set, get_elem?-last,
}
use kubebrain_client.Resolver.{Group, Builder, add_resolver, set_addrs, update_states}
use kubebrain_client.Resolver.States.{within, within-append, get_elem?-update_states}
use kubebrain_client.Resolver.Target.{set-append}

-- Under the lock: the resolver is put on the list. Its connection knows nothing yet.
unfoldable pub join_group : Bytes → ℕ → Group → Builder → Builder
join_group id g group b = record b {
  groups = set b.groups g (record group { resolvers = group.resolvers ++ length b.states ∷ [] });
  endpoint_ids = b.endpoint_ids ++ id ∷ [];
  states = b.states ++ [] ∷ [];
}

-- After it: `cr.cc.UpdateState`, with the addresses that were read under the lock.
unfoldable pub report : ℕ → List Bytes → Builder → Builder
report r addrs b = record b { states = set b.states r addrs }

-- With nothing in between, the halves are the whole.
halves :
    (id : Bytes) (g : ℕ) (group : Group) (b : Builder)
    → report (length b.states) group.addrs (join_group id g group b) ≡ add_resolver id g group b
unfolding report join_group add_resolver
halves id g group b =
    ap
      (λ (states : List (List Bytes)). record b {
        groups =
            set b.groups g (record group { resolvers = group.resolvers ++ length b.states ∷ [] });
        endpoint_ids = b.endpoint_ids ++ id ∷ [];
        states = states;
      })
      (set-append b.states [] group.addrs)

-- The resolver has the addresses `old` for good, and its group has the addresses `new`.
abbrev pub Stale : ℕ → ℕ → List Bytes → List Bytes → Builder → Type 0
Stale g r old new b =
    (get_elem? b.states r ≡ some old)
    × (crg : Group) × (get_elem? b.groups g ≡ some crg)
    × (crg.addrs ≡ new)
    × (within r crg.resolvers ≡ true)

-- If SetAddrs comes between the two halves of addResolver, the connection of the new resolver ends
-- with the old addresses while its group has the new ones and the resolver on its list; with
-- nothing in between, the halves are addResolver.
pub late_report :
    (id : Bytes) (g : ℕ) (group : Group) (new : List Bytes) (b : Builder)
    → get_elem? b.groups g ≡ some group
    → (report (length b.states) group.addrs (join_group id g group b) ≡ add_resolver id g group b)
      × Stale g
          (length b.states)
          group.addrs
          new
          (report (length b.states) group.addrs (set_addrs g new (join_group id g group b)))
unfolding report join_group set_addrs
late_report id g group new b there =
    let joined : Group = record group { resolvers = group.resolvers ++ length b.states ∷ [] } in
    let at : get_elem? (set b.groups g joined) g ≡ some joined =
      ground (arith, get_elem?-set b.groups g joined g, there) in
    (
      halves id g group b,
      rw (at, set_addrs)
          (
            ground (
              arith,
              get_elem?-set (update_states joined.resolvers new (b.states ++ [] ∷ []))
                  (length b.states) group.addrs (length b.states),
              get_elem?-update_states joined.resolvers new (b.states ++ [] ∷ []) (length b.states),
              get_elem?-last b.states [],
            ),
            record joined { addrs = new },
            ground (
              arith,
              get_elem?-set (set b.groups g joined) g (record joined { addrs = new }) g,
              at,
            ),
            refl,
            ground (arith, within-append (length b.states) group.resolvers (length b.states)),
          ),
    )
