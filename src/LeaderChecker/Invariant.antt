-- ===== src/LeaderChecker/Invariant.antt =====
-- What the goroutines of client/leader.go know.
use kubebrain_client.Prelude.{
  ℕ, zero, suc, ◌≡◌, inl, inr, ◌⊎◌, Bool, true, false, Option, none, some, List, [], ◌∷◌, Bytes,
  arith, get_elem?, set,
}
use kubebrain_client.LeaderCtrl.{Answer}
use kubebrain_client.LeaderChecker.{offering, gone, Probe, leader_at, no_leader}

-- The endpoint is one of the list.
abbrev pub Listed : Bytes → List Bytes → Type 0
Listed ep [] = ⊥
Listed ep (e ∷ eps) = (e ≡ ep) ⊎ Listed ep eps

module _ (healthy : Bytes → Bool) where
  -- The goroutines are those of the endpoints, in their order; one that offers its address was found
  -- healthy, and one that is done was not, unless the context is.
  abbrev pub Probing : Bool → List Bytes → List Probe → Type 0
  Probing expired [] [] = Unit {0}
  Probing expired [] (p ∷ ps) = ⊥
  Probing expired (ep ∷ eps) [] = ⊥
  Probing expired (ep ∷ eps) (p ∷ ps) =
      (p.endpoint ≡ ep)
      × (p.phase ≡ offering → healthy ep ≡ true)
      × (p.phase ≡ gone → expired ≡ false → healthy ep ≡ false)
      × Probing expired eps ps

  -- What is true of an answer.
  abbrev pub Right : List Bytes → Option Answer → Type 0
  Right eps none = Unit {0}
  Right eps (some a) =
      (a ≡ no_leader) ⊎ ((ep : Bytes) × (a ≡ leader_at ep) × (healthy ep ≡ true) × Listed ep eps)

  pub Probing-set :
      (expired : Bool) (eps : List Bytes) (ps : List Probe) (i : ℕ) (p q : Probe)
      → get_elem? ps i ≡ some p
      → q.endpoint ≡ p.endpoint
      → (q.phase ≡ offering → healthy q.endpoint ≡ true)
      → (q.phase ≡ gone → expired ≡ false → healthy q.endpoint ≡ false)
      → Probing expired eps ps
      → Probing expired eps (set ps i q)
  Probing-set expired eps [] i p q h same offers leaves v = cc
  Probing-set expired [] (r ∷ ps) i p q h same offers leaves v = absurd v
  Probing-set expired (ep ∷ eps) (r ∷ ps) zero p q h same offers leaves (e, _, _, v) =
      let named : q.endpoint ≡ ep = ground arith in
      (named, λ o. ground (arith, offers o), λ g c. ground (arith, leaves g c), v)
  Probing-set expired (ep ∷ eps) (r ∷ ps) (suc i) p q h same offers leaves (e, o, g, v) =
      (e, o, g, Probing-set expired eps ps i p q h same offers leaves v)

  pub Probing-expired :
      (expired : Bool) (eps : List Bytes) (ps : List Probe)
      → Probing expired eps ps
      → Probing true eps ps
  Probing-expired expired [] [] v = tt
  Probing-expired expired [] (p ∷ ps) v = absurd v
  Probing-expired expired (ep ∷ eps) [] v = absurd v
  Probing-expired expired (ep ∷ eps) (p ∷ ps) (e, o, g, v) =
      (e, o, λ h c. absurd (ground (arith, c)), Probing-expired expired eps ps v)

  pub Probing-at :
      (expired : Bool) (eps : List Bytes) (ps : List Probe) (i : ℕ) (p : Probe)
      → get_elem? ps i ≡ some p
      → p.phase ≡ offering
      → Probing expired eps ps
      → (healthy p.endpoint ≡ true) × Listed p.endpoint eps
  Probing-at expired eps [] i p h o v = cc
  Probing-at expired [] (r ∷ ps) i p h o v = absurd v
  Probing-at expired (ep ∷ eps) (r ∷ ps) zero p h o (e, offers, _, v) =
      (ground (arith, offers), inl (ground (arith, e)))
  Probing-at expired (ep ∷ eps) (r ∷ ps) (suc i) p h o (e, _, _, v) =
      let (fine, there) = Probing-at expired eps ps i p h o v in (fine, inr there)
