-- ===== src/Client/RangeStream/Partitions.antt =====
-- The ranges that the partition requests of client/client_stream.go cover.
use mathlib.Core.List.{append_assoc}
use kubebrain_client.Prelude.{
  ℕ, suc, ◌+◌, ◌-◌, ◌≡◌, refl, ap, ◌∙◌, sym, Bool, true, ◌&&◌, some, List, [], ◌∷◌, ◌++◌, arith,
  Bytes, bytes_leb, bytes_ltb, bytes_leb_refl, bytes_leb_trans, bytes_leb_total, bytes_ltb-not_leb,
  if◌then◌else◌, length, length-append, get_or, All,
}
use kubebrain_client.Rpc.Messages.{RangeRequest, ListPartitionResponse}
use kubebrain_client.Client.RangeStream.{pinned, single_request, partition_loop, partition_requests}

-- A key is in the range of a request.
abbrev pub covers : Bytes → RangeRequest → Bool
covers k req = bytes_leb req.key k && bytes_ltb k req.end

-- How many of the requests have the key in their range.
abbrev pub covering : Bytes → List RangeRequest → ℕ
covering k [] = 0
covering k (req ∷ reqs) = (if covers k req then 1 else 0) + covering k reqs

-- The keys of the partitions as the server documents them: in order.
abbrev pub IsSorted : List Bytes → Type 0
IsSorted [] = Unit {0}
IsSorted (a ∷ []) = Unit {0}
IsSorted (a ∷ b ∷ keys) = (bytes_leb a b ≡ true) × IsSorted (b ∷ keys)

-- The same requests, one for each two neighbours.
unfoldable pub tiles : RangeRequest → ℕ → List Bytes → List RangeRequest
tiles req rev [] = []
tiles req rev (a ∷ []) = []
tiles req rev (a ∷ b ∷ keys) =
    record req { key = a; end = b; revision = rev } ∷ tiles req rev (b ∷ keys)

unfoldable pub last : Bytes → List Bytes → Bytes
last a [] = a
last a (b ∷ keys) = last b keys

pub last-ge :
    (a : Bytes) (keys : List Bytes) → IsSorted (a ∷ keys) → bytes_leb a (last a keys) ≡ true
unfolding last
last-ge a [] s = bytes_leb_refl a
last-ge a (b ∷ keys) s = bytes_leb_trans a b (last b keys) s.0 (last-ge b keys s.1)

covering-tiles :
    (k a : Bytes) (keys : List Bytes) (req : RangeRequest) (rev : ℕ)
    → IsSorted (a ∷ keys)
    → covering k (tiles req rev (a ∷ keys))
      ≡ (if bytes_leb a k && bytes_ltb k (last a keys) then 1 else 0)
unfolding tiles last
covering-tiles k a [] req rev s = ground (arith, bytes_ltb-not_leb k a)
covering-tiles k a (b ∷ keys) req rev s = ground (
  arith,
  covering-tiles k b keys req rev s.1,
  last-ge b keys s.1,
  s.0,
  bytes_ltb-not_leb k b,
  bytes_ltb-not_leb k (last b keys),
  bytes_leb_trans a b k,
  bytes_leb_total b k,
  bytes_leb_trans (last b keys) k b,
  bytes_leb_trans b (last b keys) k,
)

get_or_at {ℓ} :
    {A : Type ℓ} (pre rest : List A) (a d : A) → get_or (pre ++ a ∷ rest) (length pre) d ≡ a
get_or_at [] rest a d = refl
get_or_at (x ∷ pre) rest a d = get_or_at pre rest a d

get_or_next {ℓ} :
    {A : Type ℓ} (pre rest : List A) (a b d : A)
    → get_or (pre ++ a ∷ b ∷ rest) (length pre + 1) d ≡ b
get_or_next [] rest a b d = refl
get_or_next (x ∷ pre) rest a b d =
    let e : length (x ∷ pre) + 1 ≡ suc (length pre + 1) = omega arith in
    rw e (get_or_next pre rest a b d)

get_or-last : (a : Bytes) (keys : List Bytes) → get_or (a ∷ keys) (length keys) [] ≡ last a keys
unfolding last
get_or-last a [] = refl
get_or-last a (b ∷ keys) = get_or-last b keys

-- The loop over the places makes the requests for the neighbours.
loop-tiles :
    (req : RangeRequest) (resp : ListPartitionResponse) (rev : ℕ) (pre : List Bytes) (a : Bytes)
    (keys : List Bytes)
    → pinned req resp ≡ some rev
    → resp.partition_keys ≡ pre ++ a ∷ keys
    → partition_loop req resp (length keys) (length pre) ≡ some (tiles req rev (a ∷ keys))
unfolding partition_loop tiles
loop-tiles req resp rev pre a [] p e = refl
loop-tiles req resp rev pre a (b ∷ keys) p e =
    let grown : length (pre ++ a ∷ []) ≡ length pre + 1 = length-append pre (a ∷ []) in
    let rest =
      loop-tiles req resp rev (pre ++ a ∷ []) b keys p
        (e ∙ sym (append_assoc pre (a ∷ []) (b ∷ keys))) in
    ground (
      arith,
      p,
      grown,
      rest,
      ap (λ ks. get_or ks (length pre) []) e,
      get_or_at pre (b ∷ keys) a [],
      ap (λ ks. get_or ks (length pre + 1) []) e,
      get_or_next pre keys a b [],
    )

pub tiles-requests :
    (req : RangeRequest) (resp : ListPartitionResponse) (rev : ℕ) (a : Bytes) (keys : List Bytes)
    → pinned req resp ≡ some rev
    → resp.partition_keys ≡ a ∷ keys
    → partition_requests req resp ≡ some (tiles req rev (a ∷ keys))
unfolding partition_requests
tiles-requests req resp rev a keys p e =
    let count : length resp.partition_keys - 1 ≡ length keys = omega (arith, ap length e) in
    rw count (loop-tiles req resp rev [] a keys p e)

-- The single stream asks for the range from the first key to the last.
pub single-last :
    (req : RangeRequest) (resp : ListPartitionResponse) (rev : ℕ) (a : Bytes) (keys : List Bytes)
    → pinned req resp ≡ some rev
    → resp.partition_keys ≡ a ∷ keys
    → single_request req resp ≡ some (record req { key = a; end = last a keys; revision = rev })
unfolding single_request
single-last req resp rev a keys p e =
    let count : length resp.partition_keys - 1 ≡ length keys = omega (arith, ap length e) in
    ground (
      arith,
      p,
      count,
      ap (λ ks. get_or ks 0 []) e,
      ap (λ ks. get_or ks (length keys) []) e,
      get_or-last a keys,
    )

tiles-same :
    (req : RangeRequest) (rev : ℕ) (keys : List Bytes)
    → All (λ r. r ≡ record req { key = r.key; end = r.end; revision = rev }) (tiles req rev keys)
unfolding tiles
tiles-same req rev [] = tt
tiles-same req rev (a ∷ []) = tt
tiles-same req rev (a ∷ b ∷ keys) = (refl, tiles-same req rev (b ∷ keys))

-- Where the partition keys are in order, there is at least one, and the revision is known, the
-- requests of the concurrent range stream and the request of the single stream exist; a key is in
-- the range of exactly one of the former if it is in the range of the latter and of none otherwise;
-- and the former differ from the latter in the range only, so they all read one revision.
pub partitions_cover :
    (req : RangeRequest) (resp : ListPartitionResponse) (rev : ℕ) (k a : Bytes) (keys : List Bytes)
    → pinned req resp ≡ some rev
    → resp.partition_keys ≡ a ∷ keys
    → IsSorted (a ∷ keys)
    → (reqs : List RangeRequest) × (single : RangeRequest) × (partition_requests req resp
        ≡ some reqs)
      × (single_request req resp ≡ some single)
      × (covering k reqs ≡ (if covers k single then 1 else 0))
      × All (λ r. r ≡ record single { key = r.key; end = r.end }) reqs
partitions_cover req resp rev k a keys p e s = (
  tiles req rev (a ∷ keys),
  record req { key = a; end = last a keys; revision = rev },
  tiles-requests req resp rev a keys p e,
  single-last req resp rev a keys p e,
  covering-tiles k a keys req rev s,
  tiles-same req rev (a ∷ keys),
)
