-- ===== src/Resolver/Keeps.antt =====
-- What gRPC does to the groups of client/balancer/resolver/resolver.go: it builds resolvers and closes
-- them, and leaves the table of groups alone.
use kubebrain_client.Prelude.{
  ℕ, ◌≡◌, refl, ◌∙◌, inl, inr, Option, none, some, List, [], ◌∷◌, Bytes, arith, All, lookup,
  get_elem?, set, get_elem?-set, get_or, Option-cases,
}
use kubebrain_client.Resolver.{Group, Builder, add_resolver, build, remove_resolver, close_resolver}
use kubebrain_client.Resolver.Runs.{Op, opens, dials, sets, leaves, closes, kept, apply, after}

-- The calls that are gRPC's.
abbrev pub IsGrpc : Op → Type 0
IsGrpc (opens id) = ⊥
IsGrpc (dials id) = Unit {0}
IsGrpc (sets g addrs) = ⊥
IsGrpc (leaves r) = Unit
IsGrpc (closes g) = ⊥

abbrev pub id_in : Option Group → Option Bytes
id_in none = none
id_in (some group) = some group.id

abbrev pub id_at : ℕ → Builder → Option Bytes
id_at g b = id_in (get_elem? b.groups g)

-- The table and the ids are the same.
pub record Keeps (b c : Builder) : Type 0 where
  pub table : c.resolver_groups ≡ b.resolver_groups
  pub ids : (g : ℕ) → id_at g c ≡ id_at g b

Keeps-refl : (b : Builder) → Keeps b b
Keeps-refl b = record { table = refl; ids = λ g. refl }

pub Keeps-trans : (b c d : Builder) → Keeps b c → Keeps c d → Keeps b d
Keeps-trans b c d k l = record { table = l.table ∙ k.table; ids = λ g. l.ids g ∙ k.ids g }

-- A group is written with its id.
set-id :
    (b : Builder) (g h : ℕ) (old new : Group)
    → get_elem? b.groups g ≡ some old
    → new.id ≡ old.id
    → id_in (get_elem? (set b.groups g new) h) ≡ id_at h b
set-id b g h old new e same = ground (arith, e, same, get_elem?-set b.groups g new h)

dials-Keeps : (id : Bytes) (b : Builder) → Keeps b (kept b (build id b))
unfolding build add_resolver
dials-Keeps id b = elim (Option-cases (lookup id b.resolver_groups)) [
  | inl e ↦ rw (e, build) (Keeps-refl b)
  | inr (g, e) ↦ elim (Option-cases (get_elem? b.groups g)) [
    | inl f ↦ rw (e, build, f) (Keeps-refl b)
    | inr (old, f) ↦
        rw (e, build, f) (record { table = refl; ids = λ h. set-id b g h old _ f refl })
  ]
]

remove_resolver-Keeps : (g r : ℕ) (b : Builder) → Keeps b (remove_resolver g r b)
unfolding remove_resolver
remove_resolver-Keeps g r b = elim (Option-cases (get_elem? b.groups g)) [
  | inl e ↦ rw (e, remove_resolver) (Keeps-refl b)
  | inr (old, e) ↦
      rw (e, remove_resolver) (record { table = refl; ids = λ h. set-id b g h old _ e refl })
]

leaves-Keeps : (r : ℕ) (b : Builder) → Keeps b (close_resolver r b)
unfolding close_resolver
leaves-Keeps r b = elim (Option-cases (lookup (get_or b.endpoint_ids r []) b.resolver_groups)) [
  | inl e ↦ rw (e, close_resolver) (Keeps-refl b)
  | inr (g, e) ↦ rw (e, close_resolver) (remove_resolver-Keeps g r b)
]

pub after-Keeps : (ops : List Op) (b : Builder) → All IsGrpc ops → Keeps b (after ops b)
unfolding apply
after-Keeps [] b a = Keeps-refl b
after-Keeps (opens id ∷ ops) b a = elim a.0 [ ]
after-Keeps (dials id ∷ ops) b a = Keeps-trans _ _ _ (dials-Keeps id b) (after-Keeps ops _ a.1)
after-Keeps (sets g addrs ∷ ops) b a = elim a.0 [ ]
after-Keeps (leaves r ∷ ops) b a = Keeps-trans _ _ _ (leaves-Keeps r b) (after-Keeps ops _ a.1)
after-Keeps (closes g ∷ ops) b a = elim a.0 [ ]
