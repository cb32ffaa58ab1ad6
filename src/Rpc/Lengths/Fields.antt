-- ===== src/Rpc/Lengths/Fields.antt =====
-- The lengths of the fields of a message of api/v2rpc/rpc.pb.go.
use kubebrain_client.Prelude.{
  ℕ, ◌≡◌, ap, refl, Bool, true, false, Option, none, some, List, [], ◌∷◌, arith, Bytes, length,
  length-append,
}
use kubebrain_client.Prelude.Int.{ℤ, pos, negsuc, u64, u64_of}
use kubebrain_client.Rpc.Varint.{varint, sov_rpc-varint}
use kubebrain_client.Rpc.Size.{
  varint_part, int_part, delimited_part, bytes_part, bool_part, pointer_part, repeated_part,
}
use kubebrain_client.Rpc.Wire.{
  varint_field, int_field, delimited, bytes_field, bool_field, pointer_field, repeated_field,
}

pub length-varint_field : (tag x : ℕ) → length (varint_field tag x) ≡ varint_part x
unfolding varint_field varint_part
length-varint_field tag x = ground (arith, sov_rpc-varint (u64 x))

pub length-int_field : (tag : ℕ) (x : ℤ) → length (int_field tag x) ≡ int_part x
unfolding int_field int_part
length-int_field tag (pos n) = length-varint_field tag n
length-int_field tag (negsuc n) = omega (arith, sov_rpc-varint (u64_of (negsuc n)))

pub length-delimited : (tag : ℕ) (b : Bytes) → length (delimited tag b) ≡ delimited_part (length b)
unfolding delimited delimited_part
length-delimited tag b =
    omega (arith, sov_rpc-varint (u64 (length b)), length-append (varint 10 (u64 (length b))) b)

pub length-bytes_field : (tag : ℕ) (b : Bytes) → length (bytes_field tag b) ≡ bytes_part b
unfolding bytes_field bytes_part
length-bytes_field tag [] = refl
length-bytes_field tag (x ∷ xs) = ground (arith, length-delimited tag (x ∷ xs))

pub length-bool_field : (tag : ℕ) (b : Bool) → length (bool_field tag b) ≡ bool_part b
unfolding bool_field bool_part
length-bool_field tag true = refl
length-bool_field tag false = refl

module _ {ℓ} {A : Type ℓ} (encode : A → Bytes) (size : A → ℕ)
    (same : (e : A) → length (encode e) ≡ size e) where
  pub length-repeated_field :
      (tag : ℕ) (es : List A) → length (repeated_field tag encode es) ≡ repeated_part size es
  unfolding repeated_field repeated_part
  length-repeated_field tag [] = refl
  length-repeated_field tag (e ∷ es) = omega (
    arith,
    length-append (delimited tag (encode e)) (repeated_field tag encode es),
    length-delimited tag (encode e),
    ap delimited_part (same e),
    length-repeated_field tag es,
  )

module _ {ℓ} {A : Type ℓ} (encode : Option A → Bytes) (size : Option A → ℕ)
    (same : (e : Option A) → length (encode e) ≡ size e) where
  pub length-pointer_field :
      (tag : ℕ) (e : Option A) → length (pointer_field tag encode e) ≡ pointer_part size e
  unfolding pointer_field pointer_part
  length-pointer_field tag none = refl
  length-pointer_field tag (some m) =
      omega (arith, length-delimited tag (encode (some m)), ap delimited_part (same (some m)))

pub ruleset field_lengths =
    (length-append, length-varint_field, length-int_field, length-bytes_field, length-bool_field)
