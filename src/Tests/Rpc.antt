-- ===== src/Tests/Rpc.antt =====
-- Sizes of messages of api/v2rpc/rpc.pb.go.
use kubebrain_client.Prelude.{
  ◌≡◌, refl, none, some, true, [], ◌∷◌, arith, codes, length, ◌≤◌, ◌<◌, ◌↔◌,
}
use kubebrain_client.Rpc.Messages.{KeyValue, RangeResponse}
use kubebrain_client.Rpc.Bounds.{sov_rpc_bounds}
use kubebrain_client.Rpc.Varint.{sov_rpc, varint}
use kubebrain_client.Rpc.Message.{range_response, size, encode, size-encode}

abbrev pod : KeyValue
pod = record { key = codes "/pods/a"; value = 1 ∷ 2 ∷ 3 ∷ []; revision = 300; unrecognized = [] }

abbrev page : RangeResponse
page = record {
  header = some (record { revision = 70000; unrecognized = [] });
  kvs = some pod ∷ none ∷ some pod ∷ [];
  more = true;
  unrecognized = 0x55 ∷ [];
}

varint_300 : varint 10 300 ≡ 0xac ∷ 0x02 ∷ []
unfolding varint
varint_300 = refl

size-encode_example :
    size (range_response (some page)) ≡ length (encode (range_response (some page)))
size-encode_example = size-encode (range_response (some page))

sov_rpc_bounds_example :
    (1 ≤ sov_rpc 300) × (sov_rpc 300 ≤ 10) × ((sov_rpc 300 ≤ 2) ↔ (300 < 16384))
sov_rpc_bounds_example = sov_rpc_bounds 300 2 (omega arith) (omega arith)
