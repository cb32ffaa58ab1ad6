-- ===== src/Rpc/Bounds.antt =====
-- How many bytes `sovRpc` of api/v2rpc/rpc.pb.go says that a number takes.
use kubebrain_client.Prelude.{ℕ, zero, suc, ◌/◌, ◌^◌, ◌≤◌, ◌<◌, ◌≡◌, ◌↔◌, arith, length, dec_lt}
use kubebrain_client.Rpc.Varint.{sov_rpc, varint, cap, sov_rpc-varint}

cap_some : (k : ℕ) → 1 ≤ cap k
cap_some zero = omega arith
cap_some (suc k) = omega (arith, cap_some k)

varint_some : (f x : ℕ) → 1 ≤ length (varint (suc f) x)
unfolding varint
varint_some f x = ground arith

-- A varint takes one byte more than the rest of its number, if there is a rest.
varint_next : (f x : ℕ) → 128 ≤ x → length (varint (suc f) x) ≡ suc (length (varint f (x / 128)))
unfolding varint
varint_next f x h = ground arith

varint_one : (f x : ℕ) → x < 128 → length (varint (suc f) x) ≡ 1
unfolding varint
varint_one f x h = ground arith

fits : (f k x : ℕ) → x < cap f → 1 ≤ k → (length (varint f x) ≤ k) ↔ (x < cap k)
unfolding varint
fits zero k x h some_byte = (λ l. omega (arith, cap_some k), λ l. omega arith)
fits (suc f) zero x h some_byte = absurd (omega arith)
fits (suc zero) (suc zero) x h some_byte =
    (λ l. omega arith, λ l. omega (arith, varint_one 0 x (omega arith)))
fits (suc (suc f)) (suc zero) x h some_byte = elim (dec_lt x 128) [
  | yes small ↦ (λ l. omega arith, λ l. omega (arith, varint_one (suc f) x small))
  | no large ↦ (
    λ l. omega (arith, varint_next (suc f) x (omega arith), varint_some f (x / 128)),
    λ l. omega arith,
  )
]
fits (suc f) (suc (suc k)) x h some_byte = elim (dec_lt x 128) [
  | yes small ↦ (λ l. omega (arith, cap_some k), λ l. omega (arith, varint_one f x small))
  | no large ↦
      let rest = fits f (suc k) (x / 128) (omega arith) (omega arith) in
      let next = varint_next f x (omega arith) in
      (
        λ l. omega (arith, rest.0 (omega (arith, next))),
        λ l. omega (arith, next, rest.1 (omega arith)),
      )
]

sov_rpc_some : (x : ℕ) → x < 2 ^ 64 → 1 ≤ sov_rpc x
sov_rpc_some x h = omega (arith, sov_rpc-varint x h, varint_some 9 x)

-- For a number below 2 ^ 64, sovRpc is between 1 and 10, and it is at most k, for k from 1 on,
-- exactly if the number is below the k-th power of 128.
pub sov_rpc_bounds :
    (x k : ℕ)
    → x < 2 ^ 64
    → 1 ≤ k
    → (1 ≤ sov_rpc x) × (sov_rpc x ≤ 10) × ((sov_rpc x ≤ k) ↔ (x < cap k))
sov_rpc_bounds x k h some_byte =
    let fit = fits 10 k x (omega arith) some_byte in
    let most = (fits 10 10 x (omega arith) (omega arith)).1 (omega arith) in
    let e = sov_rpc-varint x h in
    (
      sov_rpc_some x h,
      omega (arith, e, most),
      (λ l. fit.0 (omega (arith, e)), λ l. omega (arith, e, fit.1 l)),
    )
