-- ===== src/Rpc/Varint.antt =====
-- `sovRpc` of api/v2rpc/rpc.pb.go, the length of a varint, against the base-128 encoding.
use kubebrain_client.Prelude.{
  ℕ, zero, suc, ◌+◌, ◌-◌, ◌*◌, ◌/◌, ◌%◌, ◌^◌, ◌≤◌, ◌<◌, ◌≡◌, refl, ◌∙◌, [], ◌∷◌, arith, Bytes, ltb,
  ◌==◌, if◌then◌else◌, length, dec_lt,
}
use native.Mathlib.Nat.{pow-suc}

-- `bits.Len64`, on at most 64 rounds
len_bits : ℕ → ℕ → ℕ
len_bits zero x = 0
len_bits (suc f) x = if x == 0 then 0 else suc (len_bits f (x / 2))

-- `x | 1`
abbrev or_one : ℕ → ℕ
or_one x = x + 1 - x % 2

unfoldable pub sov_rpc : ℕ → ℕ
unfolding len_bits
sov_rpc x = (len_bits 64 (or_one x) + 6) / 7

-- The base-128 encoding: seven bits to a byte, the lowest first, the high bit set on all but the
-- last. Ten bytes hold 64 bits.
unfoldable pub varint : ℕ → ℕ → Bytes
varint zero x = []
varint (suc f) x = if ltb x 128 then x ∷ [] else (x % 128 + 128) ∷ varint f (x / 128)

len_bits_enough : (f x : ℕ) → x < 2 ^ f → len_bits (suc f) x ≡ len_bits f x
unfolding len_bits
len_bits_enough zero x h = ground arith
len_bits_enough (suc f) x h = ground (arith, len_bits_enough f (x / 2), pow-suc 2 f)

len_bits_70 : (x : ℕ) → x < 2 ^ 64 → len_bits 70 x ≡ len_bits 64 x
len_bits_70 x h =
    len_bits_enough 69 x (omega arith)
    ∙ len_bits_enough 68 x (omega arith)
    ∙ len_bits_enough 67 x (omega arith)
    ∙ len_bits_enough 66 x (omega arith)
    ∙ len_bits_enough 65 x (omega arith)
    ∙ len_bits_enough 64 x (omega arith)

len_bits-or_one : (f x : ℕ) → 0 < x → len_bits f (or_one x) ≡ len_bits f x
unfolding len_bits
len_bits-or_one zero x h = refl
len_bits-or_one (suc f) x h = let e : or_one x / 2 ≡ x / 2 = omega arith in ground arith

len_bits_step : (f x : ℕ) → 0 < x → len_bits (suc f) x ≡ suc (len_bits f (x / 2))
unfolding len_bits
len_bits_step f x h = ground arith

len_bits_seven :
    (f x : ℕ)
    → 128 ≤ x
    → len_bits (suc (suc (suc (suc (suc (suc (suc f))))))) x ≡ 7 + len_bits f (x / 128)
len_bits_seven f x h =
    let shifted : x / 2 / 2 / 2 / 2 / 2 / 2 / 2 ≡ x / 128 = omega arith in
    rw (← shifted) (
      omega (
        arith,
        len_bits_step (suc (suc (suc (suc (suc (suc f)))))) x,
        len_bits_step (suc (suc (suc (suc (suc f))))) (x / 2),
        len_bits_step (suc (suc (suc (suc f)))) (x / 2 / 2),
        len_bits_step (suc (suc (suc f))) (x / 2 / 2 / 2),
        len_bits_step (suc (suc f)) (x / 2 / 2 / 2 / 2),
        len_bits_step (suc f) (x / 2 / 2 / 2 / 2 / 2),
        len_bits_step f (x / 2 / 2 / 2 / 2 / 2 / 2),
      ))

len_bits-zero : (f : ℕ) → len_bits f 0 ≡ 0
unfolding len_bits
len_bits-zero zero = refl
len_bits-zero (suc f) = refl

-- Numbers below 128 have at most seven bits.
len_bits_small :
    (f x : ℕ)
    → 0 < x
    → x < 128
    → (1 ≤ len_bits (suc (suc (suc (suc (suc (suc (suc f))))))) x)
      × (len_bits (suc (suc (suc (suc (suc (suc (suc f))))))) x ≤ 7)
unfolding len_bits
len_bits_small f x h lt =
    let gone : x / 2 / 2 / 2 / 2 / 2 / 2 / 2 ≡ 0 = omega arith in
    ground (arith, gone, len_bits-zero f)

abbrev bits : ℕ → ℕ
bits zero = 0
bits (suc k) = suc (suc (suc (suc (suc (suc (suc (bits k)))))))

abbrev pub cap : ℕ → ℕ
cap zero = 1
cap (suc k) = 128 * cap k

-- The number of bits in groups of seven is the number of bytes, by one group for each byte.
one_group :
    (k x : ℕ) → x < 128 → (len_bits (bits (suc k)) (or_one x) + 6) / 7 ≡ length (varint (suc k) x)
unfolding varint
one_group k x h = ground (arith, len_bits_small (bits k) (or_one x))

next_group :
    (k x : ℕ)
    → 128 ≤ x
    → len_bits (bits (suc k)) (or_one x) ≡ 7 + len_bits (bits k) (or_one (x / 128))
next_group k x h =
    let halved : or_one x / 128 ≡ x / 128 = omega arith in
    rw (len_bits-or_one (bits k) (x / 128) (omega arith), ← halved)
      (len_bits_seven (bits k) (or_one x) (omega arith))

groups :
    (k x : ℕ)
    → x < cap (suc k)
    → (len_bits (bits (suc k)) (or_one x) + 6) / 7 ≡ length (varint (suc k) x)
unfolding varint
groups zero x h = one_group 0 x (omega arith)
groups (suc k) x h = elim (dec_lt x 128) [
  | yes small ↦ one_group (suc k) x small
  | no large ↦ ground (arith, next_group (suc k) x (omega arith), groups k (x / 128) (omega arith))
]

-- sovRpc is the length of the base-128 varint, for every number below 2 ^ 64.
pub sov_rpc-varint : (x : ℕ) → x < 2 ^ 64 → sov_rpc x ≡ length (varint 10 x)
unfolding sov_rpc
sov_rpc-varint x h = rw (← len_bits_70 (or_one x) (omega arith)) (groups 9 x (omega arith))
