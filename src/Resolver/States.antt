-- ===== src/Resolver/States.antt =====
-- What the connections of client/balancer/resolver/resolver.go know.
use mathlib.Core.Path.{subst}
use kubebrain_client.Prelude.{
  get_elem?-append, get_elem?_past, lookup, get_or, ℕ, ◌==◌, ◌≡◌, inl, inr, Bool, true, false, ◌||◌,
  some, List, [], ◌∷◌, ◌++◌, Bytes, arith, if◌then◌else◌, length, get_elem?, set, get_elem?-set,
  replaced, Option-cases, Bool-cases,
}
use kubebrain_client.Resolver.{
  Group, Builder, new_resolver_group, add_resolver, build, update_states, set_addrs, remove_first,
  remove_resolver, close_resolver, close_group,
}

abbrev pub within : ℕ → List ℕ → Bool
within r [] = false
within r (x ∷ xs) = x == r || within r xs

-- Every resolver of a group knows the addresses of the group, and is in no other group.
pub record IsValid (b : Builder) : Type 0 where
  pub known :
      (g : ℕ) (group : Group) (r : ℕ)
      → get_elem? b.groups g ≡ some group
      → within r group.resolvers ≡ true
      → get_elem? b.states r ≡ some group.addrs
  pub apart :
      (g h : ℕ) (group other : Group) (r : ℕ)
      → get_elem? b.groups g ≡ some group
      → get_elem? b.groups h ≡ some other
      → within r group.resolvers ≡ true
      → within r other.resolvers ≡ true
      → g ≡ h

pub within-append :
    (r : ℕ) (xs : List ℕ) (x : ℕ) → within r (xs ++ x ∷ []) ≡ (within r xs || x == r)
within-append r [] x = ground arith
within-append r (y ∷ xs) x = ground (arith, within-append r xs x)

within-remove_first :
    (r s : ℕ) (xs : List ℕ) → within s (remove_first r xs) ≡ true → within s xs ≡ true
unfolding remove_first
within-remove_first r s [] h = h
within-remove_first r s (x ∷ xs) h = ground (arith, within-remove_first r s xs)

-- The loop of `SetAddrs` changes the state of the resolvers in its list, and no other.
pub get_elem?-update_states :
    (rs : List ℕ) (addrs : List Bytes) (states : List (List Bytes)) (r : ℕ)
    → get_elem? (update_states rs addrs states) r
      ≡ (if within r rs then replaced (get_elem? states r) addrs else get_elem? states r)
unfolding update_states
get_elem?-update_states [] addrs states r = ground arith
get_elem?-update_states (x ∷ rs) addrs states r =
    ground (
      arith,
      get_elem?-update_states rs addrs (set states x addrs) r,
      get_elem?-set states x addrs r,
    )

pub set_addrs-IsValid :
    (g : ℕ) (addrs : List Bytes) (b : Builder) → IsValid b → IsValid (set_addrs g addrs b)
unfolding set_addrs
set_addrs-IsValid g addrs b v = elim (Option-cases (get_elem? b.groups g)) [
  | inl e ↦ rw (e, set_addrs) v
  | inr (old, e) ↦
      rw (e, set_addrs)
        (record {
          known = λ h group r there here. ground (
            arith,
            e,
            get_elem?-set b.groups g (record old { addrs = addrs }) h,
            get_elem?-update_states old.resolvers addrs b.states r,
            v.known g old r e,
            v.known h group r,
            v.apart g h old group r e,
          );
          apart = λ h i group other r x y p q. ground (
            arith,
            e,
            get_elem?-set b.groups g (record old { addrs = addrs }) h,
            get_elem?-set b.groups g (record old { addrs = addrs }) i,
            v.apart g i old other r e,
            v.apart h g group old r,
            v.apart h i group other r,
          );
        })
]

-- A resolver that is to come is in no group.
unborn :
    (b : Builder) (g : ℕ) (group : Group)
    → IsValid b
    → get_elem? b.groups g ≡ some group
    → within (length b.states) group.resolvers ≡ false
unborn b g group v e = elim (Bool-cases (within (length b.states) group.resolvers)) [
  | inl here ↦
      absurd (ground (arith, v.known g group (length b.states) e here, get_elem?_past b.states))
  | inr absent ↦ absent
]

add_resolver-IsValid :
    (id : Bytes) (g : ℕ) (old : Group) (b : Builder)
    → get_elem? b.groups g ≡ some old
    → IsValid b
    → IsValid (add_resolver id g old b)
unfolding add_resolver
add_resolver-IsValid id g old b e v =
    let new : Group = record old { resolvers = old.resolvers ++ length b.states ∷ [] } in
    record {
      known = λ h group r there here. ground (
        arith,
        e,
        get_elem?-set b.groups g new h,
        get_elem?-append b.states old.addrs r,
        within-append r old.resolvers (length b.states),
        v.known g old r e,
        v.known h group r,
        unborn b h group v,
        get_elem?_past b.states,
      );
      apart = λ h i group other r x y p q. ground (
        arith,
        e,
        get_elem?-set b.groups g new h,
        get_elem?-set b.groups g new i,
        within-append r old.resolvers (length b.states),
        v.apart g i old other r e,
        v.apart h g group old r,
        v.apart h i group other r,
        unborn b h group v,
        unborn b i other v,
      );
    }

pub build-IsValid : (id : Bytes) (b c : Builder) → build id b ≡ some c → IsValid b → IsValid c
unfolding build
build-IsValid id b c h v = elim (Option-cases (lookup id b.resolver_groups)) [
  | inl e ↦ absurd (ground (arith, e))
  | inr (g, e) ↦ elim (Option-cases (get_elem? b.groups g)) [
    | inl f ↦ absurd (ground (arith, e, f))
    | inr (old, f) ↦ subst IsValid (ground (arith, e, f)) (add_resolver-IsValid id g old b f v)
  ]
]

pub new_resolver_group-IsValid :
    (id : Bytes) (b : Builder) → IsValid b → IsValid (new_resolver_group id b).0
unfolding new_resolver_group
new_resolver_group-IsValid id b v =
    let new : Group = record { id = id; addrs = []; resolvers = [] } in
    record {
      known = λ h group r there here.
          ground (arith, get_elem?-append b.groups new h, v.known h group r);
      apart = λ h i group other r x y p q. ground (
        arith,
        get_elem?-append b.groups new h,
        get_elem?-append b.groups new i,
        v.apart h i group other r,
      );
    }

remove_resolver-IsValid : (g r : ℕ) (b : Builder) → IsValid b → IsValid (remove_resolver g r b)
unfolding remove_resolver
remove_resolver-IsValid g r b v = elim (Option-cases (get_elem? b.groups g)) [
  | inl e ↦ rw (e, remove_resolver) v
  | inr (old, e) ↦
      let new : Group = record old { resolvers = remove_first r old.resolvers } in
      rw (e, remove_resolver)
        (record {
          known = λ h group s there here. ground (
            arith,
            e,
            get_elem?-set b.groups g new h,
            within-remove_first r s old.resolvers,
            v.known g old s e,
            v.known h group s,
          );
          apart = λ h i group other s x y p q. ground (
            arith,
            e,
            get_elem?-set b.groups g new h,
            get_elem?-set b.groups g new i,
            within-remove_first r s old.resolvers,
            v.apart g i old other s e,
            v.apart h g group old s,
            v.apart h i group other s,
          );
        })
]

pub close_resolver-IsValid : (r : ℕ) (b : Builder) → IsValid b → IsValid (close_resolver r b)
unfolding close_resolver
close_resolver-IsValid r b v =
    elim (Option-cases (lookup (get_or b.endpoint_ids r []) b.resolver_groups)) [
      | inl e ↦ rw (e, close_resolver) v
      | inr (g, e) ↦ rw (e, close_resolver) (remove_resolver-IsValid g r b v)
    ]

pub close_group-IsValid : (g : ℕ) (b : Builder) → IsValid b → IsValid (close_group g b)
unfolding close_group
close_group-IsValid g b v = elim (Option-cases (get_elem? b.groups g)) [
  | inl e ↦ rw (e, close_group) v
  | inr (old, e) ↦ rw (e, close_group) (record { known = v.known; apart = v.apart })
]
