-- ===== src/Client/RangeStream/Snapshot/Gather.antt =====
-- What an interleaving of streams gives is what the streams give, in another order.
use mathlib.Core.List.{Perm, append_assoc, append-nil, perm_append_comm}
use mathlib.Core.List.Perm
use kubebrain_client.Prelude.{
  ℕ, zero, suc, ◌≡◌, refl, ap, ◌∙◌, sym, Option, some, List, [], ◌∷◌, ◌++◌, arith, get_elem?, set,
}
use kubebrain_client.Rpc.Messages.{KeyValue}
use kubebrain_client.Client.Streams.{StreamRangeResponse}
use kubebrain_client.Client.RangeStream.Merge.Parts.{Interleaved, nothing, joins, next}
use kubebrain_client.Client.RangeStream.Snapshot.{page, key_values}

module _ {E : Type 0} where
  -- The key-values of all the lists of responses, one list after the other.
  abbrev pub gathered : List (List (StreamRangeResponse E)) → List (Option KeyValue)
  gathered [] = []
  gathered (part ∷ parts) = key_values part ++ gathered parts

  key_values-append :
      (rs ss : List (StreamRangeResponse E))
      → key_values (rs ++ ss) ≡ key_values rs ++ key_values ss
  key_values-append [] ss = refl
  key_values-append (r ∷ rs) ss =
      ap (λ l. page r.range_response ++ l) (key_values-append rs ss)
      ∙ sym (append_assoc (page r.range_response) (key_values rs) (key_values ss))

  key_values-last :
      (rs : List (StreamRangeResponse E)) (r : StreamRangeResponse E)
      → key_values (rs ++ r ∷ []) ≡ key_values rs ++ page r.range_response
  key_values-last rs r =
      key_values-append rs (r ∷ [])
      ∙ ap (λ l. key_values rs ++ l) (append-nil (page r.range_response))

  gathered-join :
      (parts : List (List (StreamRangeResponse E))) → gathered (parts ++ [] ∷ []) ≡ gathered parts
  gathered-join [] = refl
  gathered-join (part ∷ parts) = ap (λ l. key_values part ++ l) (gathered-join parts)

  -- One response more in one of the parts.
  gathered-set :
      (parts : List (List (StreamRangeResponse E))) (i : ℕ) (part : List (StreamRangeResponse E))
      (r : StreamRangeResponse E)
      → get_elem? parts i ≡ some part
      → Perm (gathered (set parts i (part ++ r ∷ []))) (gathered parts ++ page r.range_response)
  gathered-set [] i part r h = cc
  gathered-set (p ∷ parts) zero part r h =
      let same : p ≡ part = ground arith in
      rw
        (
          same,
          key_values-last part r,
          append_assoc (key_values part) (page r.range_response),
          append_assoc (key_values part) (gathered parts),
        )
        (Perm.append_left (key_values part)
          (perm_append_comm (page r.range_response) (gathered parts)))
  gathered-set (p ∷ parts) (suc i) part r h =
      rw append_assoc (Perm.append_left (key_values p) (gathered-set parts i part r h))

  pub Interleaved-gathered :
      {parts : List (List (StreamRangeResponse E))} {out : List (StreamRangeResponse E)}
      → Interleaved parts out
      → Perm (gathered parts) (key_values out)
  Interleaved-gathered nothing = Perm.refl []
  Interleaved-gathered (joins {parts} {out} o) = rw (gathered-join parts) (Interleaved-gathered o)
  Interleaved-gathered (next {parts} {out} i part r h o) = rw (key_values-last out r) (
      Perm.trans (gathered-set parts i part r h)
        (Perm.append_right (page r.range_response) (Interleaved-gathered o)))
