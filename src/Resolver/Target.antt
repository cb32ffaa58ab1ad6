-- ===== src/Resolver/Target.antt =====
-- `Target` of client/balancer/resolver/resolver.go and the way back: gRPC takes the target apart and
-- passes its authority to `Build`.
use kubebrain_client.Prelude.{
  ◌≡◌, ◌≢◌, refl, some, List, [], ◌∷◌, ◌++◌, arith, Bytes, codes, All, get_elem?, length, set,
  insert, ap, get_elem?-last, lookup-insert_self,
}
use kubebrain_client.Resolver.{
  Group, Builder, new_resolver_group, add_resolver, build, update_states, set_addrs,
}

-- `scheme`
abbrev pub scheme : Bytes
scheme = codes "brain"

-- `customResolverGroup.Target`
unfoldable pub target : Group → Bytes
target crg = scheme ++ (codes "://" ++ (crg.id ++ codes "/endpoint"))

-- `resolver.Target` of gRPC
pub record GrpcTarget : Type 0 where
  pub scheme : Bytes
  pub authority : Bytes
  pub endpoint : Bytes

-- gRPC's targets are `scheme://authority/endpoint`: a colon ends the scheme, and the slash after
-- its two slashes ends the authority.
abbrev pub Splits : (Bytes → GrpcTarget) → Type 0
Splits parse_target =
    (s authority endpoint : Bytes)
    → All (λ c. c ≢ b':') s
    → All (λ c. c ≢ b'/') authority
    → parse_target (s ++ (codes "://" ++ (authority ++ (codes "/" ++ endpoint))))
      ≡ record { scheme = s; authority = authority; endpoint = endpoint }

-- A new group, with its addresses set, and nothing else.
abbrev pub opened : Bytes → List Bytes → Group
opened id addrs = record { id = id; addrs = addrs; resolvers = [] }

pub set-append :
    {A : Type 0} (xs : List A) (x y : A) → set (xs ++ x ∷ []) (length xs) y ≡ xs ++ y ∷ []
set-append [] x y = refl
set-append (z ∷ xs) x y = ap (λ ws. z ∷ ws) (set-append xs x y)

-- The builder then.
abbrev pub grown : Bytes → List Bytes → Builder → Builder
grown id addrs b = record b {
  resolver_groups = insert id (length b.groups) b.resolver_groups;
  groups = b.groups ++ opened id addrs ∷ [];
}

-- A builder in which a group has been opened and given its addresses.
abbrev pub with_group : Bytes → List Bytes → Builder → Builder
with_group id addrs b = let (c, g) = new_resolver_group id b in set_addrs g addrs c

pub with_group_lem :
    (id : Bytes) (addrs : List Bytes) (b : Builder) → with_group id addrs b ≡ grown id addrs b
unfolding new_resolver_group set_addrs update_states
with_group_lem id addrs b =
    rw
      (
        get_elem?-last b.groups (record { id = id; addrs = []; resolvers = [] }),
        set_addrs,
        set-append b.groups (record { id = id; addrs = []; resolvers = [] })
            (record { id = id; addrs = addrs; resolvers = [] }),
      )
      refl

brain_plain : All (λ c. c ≢ b':') scheme
brain_plain = (omega arith, (omega arith, (omega arith, (omega arith, (omega arith, tt)))))

pub authority-target :
    (parse_target : Bytes → GrpcTarget) (crg : Group)
    → Splits parse_target
    → All (λ c. c ≢ b'/') crg.id
    → (parse_target (target crg)).authority ≡ crg.id
unfolding target
authority-target parse_target crg splits plain =
    ap (λ (t : GrpcTarget). t.authority) (splits scheme crg.id (codes "endpoint") brain_plain plain)

-- `Build` after that
pub dialled : Bytes → List Bytes → Builder → Builder
dialled id addrs b = add_resolver id (length b.groups) (opened id addrs) (grown id addrs b)

pub build-grown :
    (id : Bytes) (addrs : List Bytes) (b : Builder)
    → build id (grown id addrs b) ≡ some (dialled id addrs b)
unfolding build dialled
build-grown id addrs b =
    rw
      (
        lookup-insert_self id (length b.groups) b.resolver_groups,
        build,
        get_elem?-last b.groups (opened id addrs),
      )
      refl

pub dialled-state :
    (id : Bytes) (addrs : List Bytes) (b : Builder)
    → get_elem? (dialled id addrs b).states (length b.states) ≡ some addrs
unfolding dialled add_resolver
dialled-state id addrs b = get_elem?-last b.states addrs

-- The target of a new group with its addresses set, once gRPC has taken it apart as it documents,
-- leads Build to that group: it succeeds, its resolver is the only one of the group, and the
-- resolver's connection is given the group's addresses; for an id without a slash.
pub dials_own_group :
    (parse_target : Bytes → GrpcTarget) (id : Bytes) (addrs : List Bytes) (b : Builder)
    → Splits parse_target
    → All (λ c. c ≢ b'/') id
    → (crg : Group) × (get_elem? (with_group id addrs b).groups (length b.groups) ≡ some crg)
      × (c : Builder) × (build (parse_target (target crg)).authority (with_group id addrs b)
          ≡ some c)
      × (crg' : Group) × (get_elem? c.groups (length b.groups) ≡ some crg')
      × (crg'.resolvers ≡ length b.states ∷ [])
      × (get_elem? c.states (length b.states) ≡ some addrs)
unfolding add_resolver dialled
dials_own_group parse_target id addrs b splits plain = rw (with_group_lem id addrs b) (
  opened id addrs,
  get_elem?-last b.groups (opened id addrs),
  dialled id addrs b,
  rw (authority-target parse_target (opened id addrs) splits plain) (build-grown id addrs b),
  record (opened id addrs) { resolvers = length b.states ∷ [] },
  rw
      (set-append b.groups (opened id addrs)
        (record (opened id addrs) { resolvers = length b.states ∷ [] }))
      (get_elem?-last b.groups (record (opened id addrs) { resolvers = length b.states ∷ [] })),
  refl,
  get_elem?-last b.states addrs,
)
