-- ===== src/Resolver/Runs.antt =====
-- Any calls of client/balancer/resolver/resolver.go, one after the other.
use kubebrain_client.Prelude.{
  ℕ, ◌≡◌, inl, inr, true, Option, none, some, List, [], ◌∷◌, Bytes, arith, get_elem?, Option-cases,
}
use kubebrain_client.Resolver.{
  Group, Builder, new_resolver_group, build, set_addrs, close_resolver, close_group,
}
use kubebrain_client.Resolver.States.{
  within, IsValid, set_addrs-IsValid, build-IsValid, new_resolver_group-IsValid,
  close_resolver-IsValid, close_group-IsValid,
}

pub data Op : Type 0 where
  opens : Bytes → Op
  dials : Bytes → Op
  sets : ℕ → List Bytes → Op
  leaves : ℕ → Op
  closes : ℕ → Op

-- `make(map[string]*customResolverGroup)`
abbrev pub no_groups : Builder
no_groups = record { resolver_groups = []; groups = []; endpoint_ids = []; states = [] }

abbrev pub kept : Builder → Option Builder → Builder
kept b none = b
kept b (some c) = c

unfoldable pub apply : Op → Builder → Builder
apply (opens id) b = (new_resolver_group id b).0
apply (dials id) b = kept b (build id b)
apply (sets g addrs) b = set_addrs g addrs b
apply (leaves r) b = close_resolver r b
apply (closes g) b = close_group g b

abbrev pub after : List Op → Builder → Builder
after [] b = b
after (op ∷ ops) b = after ops (apply op b)

apply-IsValid : (op : Op) (b : Builder) → IsValid b → IsValid (apply op b)
unfolding apply
apply-IsValid (opens id) b v = new_resolver_group-IsValid id b v
apply-IsValid (dials id) b v = elim (Option-cases (build id b)) [
  | inl e ↦ rw (e, apply) v
  | inr (c, e) ↦ rw (e, apply) (build-IsValid id b c e v)
]
apply-IsValid (sets g addrs) b v = set_addrs-IsValid g addrs b v
apply-IsValid (leaves r) b v = close_resolver-IsValid r b v
apply-IsValid (closes g) b v = close_group-IsValid g b v

after-IsValid : (ops : List Op) (b : Builder) → IsValid b → IsValid (after ops b)
after-IsValid [] b v = v
after-IsValid (op ∷ ops) b v = after-IsValid ops (apply op b) (apply-IsValid op b v)

no_groups-IsValid : IsValid no_groups
no_groups-IsValid = record {
  known = λ g group r h. ground (arith, h);
  apart = λ g h group other r e. ground (arith, e);
}

-- After any calls that open groups, build resolvers, set addresses and close resolvers and groups,
-- each call being one step, the connection of every resolver of every group was last given the
-- addresses of that group.
pub resolvers_know :
    (ops : List Op) (g : ℕ) (group : Group) (r : ℕ)
    → get_elem? (after ops no_groups).groups g ≡ some group
    → within r group.resolvers ≡ true
    → get_elem? (after ops no_groups).states r ≡ some group.addrs
resolvers_know ops g group r there here =
    (after-IsValid ops no_groups no_groups-IsValid).known g group r there here
