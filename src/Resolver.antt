-- ===== src/Resolver.antt =====
-- client/balancer/resolver/resolver.go: groups of resolvers with one list of addresses.
--
-- Groups and resolvers are objects behind pointers: a pointer is the place in the heap, `groups` or
-- `states`. A `resolver.Address` is its `Addr`. Of a `resolver.ClientConn`, which is gRPC's, the model
-- has the last state that it was given. Each operation is one step.
pub mod States
pub mod Runs
pub mod Endpoint
pub mod Target
pub mod Keeps
pub mod Race
pub mod Schemes
use kubebrain_client.Prelude.{
  ℕ, ◌==◌, Bool, true, false, ◌||◌, Option, none, some, List, [], ◌∷◌, ◌++◌, Bytes, Map, lookup,
  insert, delete, if◌then◌else◌, length, get_elem?, set, get_or,
}

-- `customResolverGroup`
pub record Group : Type 0 where
  pub id : Bytes
  pub addrs : List Bytes
  pub resolvers : List ℕ

-- `customResolverBuilder`, with the heap: of each resolver the endpoint's id and what its connection
-- was given last.
pub record Builder : Type 0 where
  pub resolver_groups : Map ℕ
  pub groups : List Group
  pub endpoint_ids : List Bytes
  pub states : List (List Bytes)

-- `getResolverGroup`; `none` is the error that there is no group of that id.
abbrev pub get_resolver_group : Bytes → Builder → Option ℕ
get_resolver_group id b = lookup id b.resolver_groups

-- `removeResolverGroup`
abbrev pub remove_resolver_group : Bytes → Builder → Builder
remove_resolver_group id b = record b { resolver_groups = delete id b.resolver_groups }

-- `newResolverGroup`
unfoldable pub new_resolver_group : Bytes → Builder → Builder × ℕ
new_resolver_group id b = (
  record b {
    resolver_groups = insert id (length b.groups) b.resolver_groups;
    groups = b.groups ++ record { id = id; addrs = []; resolvers = [] } ∷ [];
  },
  length b.groups,
)

-- `addResolver`, of a new resolver
unfoldable pub add_resolver : Bytes → ℕ → Group → Builder → Builder
add_resolver id g group b = record b {
  groups = set b.groups g (record group { resolvers = group.resolvers ++ length b.states ∷ [] });
  endpoint_ids = b.endpoint_ids ++ id ∷ [];
  states = b.states ++ group.addrs ∷ [];
}

-- `Build`, for the authority of the target; `none` is the error that there is no group.
unfoldable pub build : Bytes → Builder → Option Builder
unfolding add_resolver
build id b = elim (get_resolver_group id b) [
  | none ↦ none
  | some g ↦ elim (get_elem? b.groups g) [
    | none ↦ none
    | some group ↦ some (add_resolver id g group b)
  ]
]

-- The loop of `SetAddrs`
unfoldable pub update_states : List ℕ → List Bytes → List (List Bytes) → List (List Bytes)
update_states [] addrs states = states
update_states (r ∷ rs) addrs states = update_states rs addrs (set states r addrs)

-- `SetAddrs`
unfoldable pub set_addrs : ℕ → List Bytes → Builder → Builder
unfolding update_states
set_addrs g addrs b = elim (get_elem? b.groups g) [
  | none ↦ b
  | some group ↦ record b {
    groups = set b.groups g (record group { addrs = addrs });
    states = update_states group.resolvers addrs b.states;
  }
]

-- The loop of `removeResolver`
unfoldable pub remove_first : ℕ → List ℕ → List ℕ
remove_first r [] = []
remove_first r (x ∷ xs) = let rest = remove_first r xs in if x == r then xs else x ∷ rest

-- `removeResolver`
unfoldable pub remove_resolver : ℕ → ℕ → Builder → Builder
unfolding remove_first
remove_resolver g r b = elim (get_elem? b.groups g) [
  | none ↦ b
  | some group ↦ record b {
    groups = set b.groups g (record group { resolvers = remove_first r group.resolvers });
  }
]

-- `customResolver.Close`
unfoldable pub close_resolver : ℕ → Builder → Builder
unfolding remove_resolver
close_resolver r b = elim (get_resolver_group (get_or b.endpoint_ids r []) b) [
  | none ↦ b
  | some g ↦ remove_resolver g r b
]

-- `customResolverGroup.Close`
unfoldable pub close_group : ℕ → Builder → Builder
close_group g b = elim (get_elem? b.groups g) [
  | none ↦ b
  | some group ↦ remove_resolver_group group.id b
]
