-- ===== src/Client/RangeStream/Merge/Parts.antt =====
-- The parts of their inputs that the callbacks of client/client_stream.go have sent, interleaved.
use mathlib.Core.List.{append_assoc}
use kubebrain_client.Prelude.{
  ℕ, zero, suc, ◌≡◌, refl, ap, ◌∙◌, sym, some, List, [], ◌∷◌, ◌++◌, map, arith, Chan, get_elem?,
  set,
}
use kubebrain_client.Client.Streams.{StreamRangeResponse}
use kubebrain_client.Client.RangeStream.Merge.{Task}

-- A list is an interleaving of some lists: new lists join empty, and each entry is the next one of
-- one of them.
pub data Interleaved {A : Type 0} : List (List A) → List A → Type 0 where
  nothing : Interleaved [] []
  joins :
      {parts : List (List A)} {out : List A}
      → Interleaved parts out
      → Interleaved (parts ++ [] ∷ []) out
  next :
      {parts : List (List A)} {out : List A} (i : ℕ) (part : List A) (x : A)
      → get_elem? parts i ≡ some part
      → Interleaved parts out
      → Interleaved (set parts i (part ++ x ∷ [])) (out ++ x ∷ [])

module _ {E : Type 0} where
  abbrev pub sent_of : List (Chan (StreamRangeResponse E)) → List (List (StreamRangeResponse E))
  sent_of cs = map (λ c. c.sent) cs

  -- Each task has passed on a part of its input, from the start of it, and has the rest.
  abbrev pub Shares :
      List (Task E)
      → List (List (StreamRangeResponse E))
      → List (List (StreamRangeResponse E))
      → Type 0
  Shares [] [] [] = Unit {0}
  Shares [] [] (input ∷ inputs) = ⊥
  Shares [] (part ∷ parts) inputs = ⊥
  Shares (t ∷ ts) [] inputs = ⊥
  Shares (t ∷ ts) (part ∷ parts) [] = ⊥
  Shares (t ∷ ts) (part ∷ parts) (input ∷ inputs) =
      (part ++ t.input ≡ input) × Shares ts parts inputs

  -- Each part is the start of the input at its place.
  abbrev pub Starts :
      List (List (StreamRangeResponse E)) → List (List (StreamRangeResponse E)) → Type 0
  Starts [] inputs = Unit {0}
  Starts (part ∷ parts) [] = ⊥
  Starts (part ∷ parts) (input ∷ inputs) =
      ((rest : List (StreamRangeResponse E)) × (part ++ rest ≡ input)) × Starts parts inputs

  pub Shares-join :
      (ts : List (Task E)) (parts inputs : List (List (StreamRangeResponse E))) (t : Task E)
      → Shares ts parts inputs
      → Shares (ts ++ t ∷ []) (parts ++ [] ∷ []) (inputs ++ t.input ∷ [])
  Shares-join [] [] [] t s = (refl, tt)
  Shares-join [] [] (input ∷ inputs) t s = absurd s
  Shares-join [] (part ∷ parts) inputs t s = absurd s
  Shares-join (u ∷ ts) [] inputs t s = absurd s
  Shares-join (u ∷ ts) (part ∷ parts) [] t s = absurd s
  Shares-join (u ∷ ts) (part ∷ parts) (input ∷ inputs) t s =
      (s.0, Shares-join ts parts inputs t s.1)

  -- A task has its part, and may come to another state with the same rest, or have sent one more.
  pub Shares-set :
      (ts : List (Task E)) (parts inputs : List (List (StreamRangeResponse E))) (i : ℕ)
      (t u : Task E) (xs : List (StreamRangeResponse E))
      → get_elem? ts i ≡ some t
      → t.input ≡ xs ++ u.input
      → Shares ts parts inputs
      → (part : List (StreamRangeResponse E)) × (get_elem? parts i ≡ some part)
        × Shares (set ts i u) (set parts i (part ++ xs)) inputs
  Shares-set [] parts inputs i t u xs h e s = cc
  Shares-set (v ∷ ts) [] inputs i t u xs h e s = absurd s
  Shares-set (v ∷ ts) (part ∷ parts) [] i t u xs h e s = absurd s
  Shares-set (v ∷ ts) (part ∷ parts) (input ∷ inputs) zero t u xs h e s =
      let same : v ≡ t = ground arith in
      (
        part,
        refl,
        (
          append_assoc part xs u.input
              ∙ ap (λ r. part ++ r) (sym e)
              ∙ ap (λ w. part ++ w.input) (sym same)
              ∙ s.0,
          s.1,
        ),
      )
  Shares-set (v ∷ ts) (part ∷ parts) (input ∷ inputs) (suc i) t u xs h e s =
      let (p, at_i, rest) = Shares-set ts parts inputs i t u xs h e s.1 in (p, at_i, (s.0, rest))

pub set_same :
    {A : Type 0} (xs : List A) (i : ℕ) (x : A) → get_elem? xs i ≡ some x → set xs i x ≡ xs
set_same [] i x h = cc
set_same (y ∷ xs) zero x h = ground arith
set_same (y ∷ xs) (suc i) x h = ap (λ r. y ∷ r) (set_same xs i x h)
