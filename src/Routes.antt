-- ===== src/Routes.antt =====
-- Which server each operation of client/interface.go reaches: the method names of
-- api/v2rpc/rpc.pb.go as the picker of client/balancer/picker/rw_separated.go reads them.
pub mod Failover
pub mod Cluster
pub mod Orphan
pub mod Session
pub mod Leadership
pub mod Followers
pub mod Operations
use mathlib.Core.List.{Perm}
use kubebrain_client.Prelude.{
  ◌≡◌, ◌≢◌, ◌<◌, ◌^◌, refl, inl, inr, Bool, true, false, List, Bytes, has_prefix, Bool-cases, ◌∙◌,
  [],
}
use kubebrain_client.Rpc.Stubs.{
  Method, get, range, range_stream, count, list_partition, watch, create, update, delete, compact,
  full_name,
}
use kubebrain_client.Picker.{Address, Picker, Outcome, Reads, read, pick}
use kubebrain_client.Picker.Invariant.{listed, addrs, IsValid}
use kubebrain_client.Picker.Routing.{Written, Served, pick_write, pick-read}

-- The methods that a follower may answer.
abbrev pub is_read : Method → Bool
is_read get = true
is_read range = true
is_read range_stream = true
is_read count = true
is_read list_partition = true
is_read watch = false
is_read create = false
is_read update = false
is_read delete = false
is_read compact = false

pub full_name-read : (method : Method) → has_prefix read (full_name method) ≡ is_read method
unfolding full_name has_prefix
full_name-read get = refl
full_name-read range = refl
full_name-read range_stream = refl
full_name-read count = refl
full_name-read list_partition = refl
full_name-read watch = refl
full_name-read create = refl
full_name-read update = refl
full_name-read delete = refl
full_name-read compact = refl

module _ {SubConn : Type 0} where
  abbrev pub Reached : Bool → List (Address × SubConn) → Bytes → Outcome SubConn → Type 0
  Reached true ready leader out = Served ready leader out
  Reached false ready leader out = Written ready leader out

  -- Get, Range, RangeStream, Count and ListPartition go to a ready connection that is not the
  -- leader's; Watch, Create, Update, Delete and Compact to the leader's, or nowhere if that is not
  -- ready: in a valid picker that has made fewer than 2 ^ 63 reads, if the visit of the map takes
  -- each ready connection once, the two reads of the leader by the call agree on an address and
  -- some other address is ready.
  pub method_reaches :
      (method : Method) (order : List Address) (r : Reads) (bal : Picker SubConn) (k : Bytes)
      → IsValid bal
      → Perm order (addrs bal.addr_to_sc)
      → r.fast ≡ r.locked
      → r.fast ≢ []
      → bal.next_reader < 2 ^ 63
      → listed k (addrs bal.addr_to_sc) ≡ true
      → k ≢ r.fast
      → Reached (is_read method) bal.addr_to_sc r.fast (pick order r (full_name method) bal).1
  method_reaches method order r bal k v p stable known small ready other =
      elim (Bool-cases (is_read method)) [
        | inl reads ↦ rw reads (
            pick-read order r (full_name method) bal k v p (full_name-read method ∙ reads) stable
              known small ready other)
        | inr writes ↦
            rw writes (
              pick_write order r (full_name method) bal v p (full_name-read method ∙ writes) stable)
      ]
