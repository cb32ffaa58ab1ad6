-- ===== src/Client/RequestLaws.antt =====
-- What the options of a request come to: of each kind, the last one counts.
use kubebrain_client.Prelude.{
  ℕ, ◌≡◌, ◌↔◌, refl, Bool, true, false, ◌||◌, Option, none, some, List, [], ◌∷◌, arith, Bytes,
  IsBytes, has_prefix, if◌then◌else◌,
}
use kubebrain_client.Prelude.Int.{ℤ, pos}
use kubebrain_client.Keys.{prefix_end}
use kubebrain_client.Keys.Prefix.{InRange, prefix_end_range}
use kubebrain_client.Rpc.Messages.{RangeRequest, WatchRequest}
use kubebrain_client.Client.Options.{
  RangeOption, WatchOption, RangeStreamOption, RangeStreamRequest, decorate_all, decorate_range_req,
  decorate_watch_req, decorate_stream_range_req,
}
use kubebrain_client.Client.Unary.{range_request}
use kubebrain_client.Client.Streams.{watch_request}
use kubebrain_client.Client.RangeStream.{stream_request}

-- The last of the values that the options give, or the default.
abbrev pub last_of : {O A : Type 0} → (O → Option A) → A → List O → A
last_of value d [] = d
last_of value d (o ∷ opts) = elim (value o) [
  | none ↦ last_of value d opts
  | some a ↦ last_of value a opts
]

abbrev pub any_of : {O : Type 0} → (O → Bool) → List O → Bool
any_of test [] = false
any_of test (o ∷ opts) = test o || any_of test opts

abbrev pub range_revision : RangeOption → Option ℕ
range_revision (RangeOption.with_revision rev) = some rev
range_revision (RangeOption.with_limit limit) = none

abbrev pub range_limit : RangeOption → Option ℤ
range_limit (RangeOption.with_revision rev) = none
range_limit (RangeOption.with_limit limit) = some limit

range_decorated :
    (opts : List RangeOption) (req : RangeRequest)
    → decorate_all decorate_range_req opts req ≡ record req {
      limit = last_of range_limit req.limit opts;
      revision = last_of range_revision req.revision opts;
    }
unfolding decorate_range_req
range_decorated [] req = refl
range_decorated (RangeOption.with_revision rev ∷ opts) req =
    range_decorated opts (record req { revision = rev })
range_decorated (RangeOption.with_limit limit ∷ opts) req =
    range_decorated opts (record req { limit = limit })

-- The request of Range has the two keys, the last revision and the last limit of the options, each
-- 0 if there is none, and no filter.
range_request_lem :
    (start end : Bytes) (opts : List RangeOption)
    → range_request start end opts ≡ record {
      key = start;
      end = end;
      limit = last_of range_limit (pos 0) opts;
      revision = last_of range_revision 0 opts;
      filter = none;
      unrecognized = [];
    }
unfolding range_request
range_request_lem start end opts = range_decorated opts _

abbrev pub watch_revision : WatchOption → Option ℕ
watch_revision (WatchOption.with_revision rev) = some rev
watch_revision WatchOption.with_prefix = none
watch_revision WatchOption.with_bookmark = none

abbrev pub is_prefix : WatchOption → Bool
is_prefix (WatchOption.with_revision rev) = false
is_prefix WatchOption.with_prefix = true
is_prefix WatchOption.with_bookmark = false

abbrev pub is_bookmarks : WatchOption → Bool
is_bookmarks (WatchOption.with_revision rev) = false
is_bookmarks WatchOption.with_prefix = false
is_bookmarks WatchOption.with_bookmark = true

watch_decorated :
    (opts : List WatchOption) (req : WatchRequest)
    → decorate_all decorate_watch_req opts req ≡ record req {
      end = if any_of is_prefix opts then prefix_end req.key else req.end;
      revision = last_of watch_revision req.revision opts;
      allow_watch_bookmarks = any_of is_bookmarks opts || req.allow_watch_bookmarks;
    }
unfolding decorate_watch_req
watch_decorated [] req = refl
watch_decorated (WatchOption.with_revision rev ∷ opts) req =
    watch_decorated opts (record req { revision = rev })
watch_decorated (WatchOption.with_prefix ∷ opts) req =
    ground (arith, watch_decorated opts (record req { end = prefix_end req.key }))
watch_decorated (WatchOption.with_bookmark ∷ opts) req =
    ground (arith, watch_decorated opts (record req { allow_watch_bookmarks = true }))

-- The request of Watch, by its options: the last revision counts, and a prefix or bookmark option
-- counts wherever it stands.
watch_request_lem :
    (key : Bytes) (opts : List WatchOption)
    → watch_request key opts ≡ record {
      key = key;
      end = if any_of is_prefix opts then prefix_end key else [];
      revision = last_of watch_revision 0 opts;
      filter = none;
      allow_watch_bookmarks = any_of is_bookmarks opts || false;
      unrecognized = [];
    }
unfolding watch_request
watch_request_lem key opts = watch_decorated opts _

-- A watch with the option for a prefix, also among other options and in any place, asks for the
-- range of exactly the keys with that prefix.
pub watch_prefix :
    (key : Bytes) (opts : List WatchOption) (k : Bytes)
    → IsBytes key
    → IsBytes k
    → any_of is_prefix opts ≡ true
    → (has_prefix key k ≡ true)
      ↔ InRange (watch_request key opts).key (watch_request key opts).end k
watch_prefix key opts k b c h = rw (watch_request_lem key opts, h) (prefix_end_range key k b c)

abbrev pub stream_revision : RangeStreamOption → Option ℕ
stream_revision (RangeStreamOption.with_revision rev) = some rev
stream_revision (RangeStreamOption.with_limit limit) = none
stream_revision (RangeStreamOption.with_max_concurrent n) = none

abbrev pub stream_limit : RangeStreamOption → Option ℤ
stream_limit (RangeStreamOption.with_revision rev) = none
stream_limit (RangeStreamOption.with_limit limit) = some limit
stream_limit (RangeStreamOption.with_max_concurrent n) = none

abbrev pub stream_concurrent : RangeStreamOption → Option ℕ
stream_concurrent (RangeStreamOption.with_revision rev) = none
stream_concurrent (RangeStreamOption.with_limit limit) = none
stream_concurrent (RangeStreamOption.with_max_concurrent n) = some n

stream_decorated :
    (opts : List RangeStreamOption) (req : RangeStreamRequest)
    → decorate_all decorate_stream_range_req opts req ≡ record {
      range_request = record (req.range_request) {
        limit = last_of stream_limit req.range_request.limit opts;
        revision = last_of stream_revision req.range_request.revision opts;
      };
      max_concurrent = last_of stream_concurrent req.max_concurrent opts;
    }
unfolding decorate_stream_range_req
stream_decorated [] req = refl
stream_decorated (RangeStreamOption.with_revision rev ∷ opts) req =
    stream_decorated opts
      (record req { range_request = record (req.range_request) { revision = rev } })
stream_decorated (RangeStreamOption.with_limit limit ∷ opts) req =
    stream_decorated opts
      (record req { range_request = record (req.range_request) { limit = limit } })
stream_decorated (RangeStreamOption.with_max_concurrent n ∷ opts) req =
    stream_decorated opts (record req { max_concurrent = n })

-- The request of RangeStream after its options: of each kind the last one counts, and with none the
-- number of streams is 1 and the revision and the limit are 0.
pub stream_request_lem :
    (key end : Bytes) (opts : List RangeStreamOption)
    → stream_request key end opts ≡ record {
      range_request = record {
        key = key;
        end = end;
        limit = last_of stream_limit (pos 0) opts;
        revision = last_of stream_revision 0 opts;
        filter = none;
        unrecognized = [];
      };
      max_concurrent = last_of stream_concurrent 1 opts;
    }
unfolding stream_request
stream_request_lem key end opts = stream_decorated opts _
