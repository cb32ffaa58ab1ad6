-- ===== src/Keys/Prefix.antt =====
-- `prefixEnd` against the order of keys.
use kubebrain_client.Prelude.{
  ℕ, zero, suc, ◌+◌, ◌%◌, ◌≡◌, ◌≢◌, refl, ◌↔◌, ◌⊎◌, inl, inr, ◌&&◌, true, Option, none, some, [],
  ◌∷◌, arith, Bytes, IsBytes, bytes_leb, bytes_ltb, has_prefix, ltb, if◌then◌else◌, length, All,
  Option-cases,
}
use kubebrain_client.Keys.{no_prefix_end, prefix_end_loop, prefix_end}

-- What the range [start, end) of a request means: the one-byte end 0 is "from the key on".
abbrev pub InRange : Bytes → Bytes → Bytes → Type 0
InRange start end k =
    (bytes_leb start k ≡ true) × ((end ≡ no_prefix_end) ⊎ (bytes_ltb k end ≡ true))

-- The first byte is changed only if the loop over the rest has found none to change.
abbrev or_head : ℕ → Option Bytes → Option Bytes
or_head x (some end) = some (x ∷ end)
or_head x none = if ltb x 0xff then some (((x + 1) % 256) ∷ []) else none

prefix_end_loop-cons :
    (x : ℕ) (xs : Bytes) (n : ℕ)
    → prefix_end_loop (x ∷ xs) (suc n) ≡ or_head x (prefix_end_loop xs n)
unfolding prefix_end_loop
prefix_end_loop-cons x xs zero = ground arith
prefix_end_loop-cons x xs (suc n) = ground (arith, prefix_end_loop-cons x xs n)

abbrev Saturated : Bytes → Type 0
Saturated = All (λ b. b ≡ 0xff)

-- Below a prefix of bytes 0xff no key is left that does not have it.
Saturated-has_prefix : (p k : Bytes) → Saturated p → IsBytes k → has_prefix p k ≡ bytes_leb p k
unfolding has_prefix bytes_leb
Saturated-has_prefix [] k s b = refl
Saturated-has_prefix (x ∷ xs) [] s b = refl
Saturated-has_prefix (x ∷ xs) (y ∷ ys) s b = ground (arith, Saturated-has_prefix xs ys s.1 b.1)

loop_none : (p : Bytes) → IsBytes p → prefix_end_loop p (length p) ≡ none → Saturated p
loop_none [] b h = tt
loop_none (x ∷ xs) b h = ground (arith, prefix_end_loop-cons x xs (length xs), loop_none xs b.1)

-- Where the loop ends by its test, the keys with the prefix are those between the two ends.
loop_some :
    (p e k : Bytes)
    → IsBytes p
    → IsBytes k
    → prefix_end_loop p (length p) ≡ some e
    → has_prefix p k ≡ (bytes_leb p k && bytes_ltb k e)
unfolding has_prefix bytes_leb bytes_ltb
loop_some [] e k bp bk h = absurd (unfold prefix_end_loop in (ground arith))
loop_some (x ∷ xs) e [] bp bk h = refl
loop_some (x ∷ xs) e (y ∷ ys) bp bk h = elim (Option-cases (prefix_end_loop xs (length xs))) [
  | inl none_left ↦ ground (
    arith,
    prefix_end_loop-cons x xs (length xs),
    none_left,
    Saturated-has_prefix xs ys (loop_none xs bp.1 none_left) bk.1,
  )
  | inr (e', found) ↦
      ground
        (arith, prefix_end_loop-cons x xs (length xs), found, loop_some xs e' ys bp.1 bk.1 found)
]

-- So the end is not taken for "from the key on".
loop_proper :
    (p e : Bytes)
    → IsBytes p
    → prefix_end_loop p (length p) ≡ some e
    → (e ≢ []) × (e ≢ no_prefix_end)
loop_proper [] e b h = absurd (unfold prefix_end_loop in (ground arith))
loop_proper (x ∷ xs) e b h = elim (Option-cases (prefix_end_loop xs (length xs))) [
  | inl none_left ↦
      let step = prefix_end_loop-cons x xs (length xs) in
      (λ q. ground (arith, none_left), λ q. ground (arith, none_left))
  | inr (e', found) ↦
      let step = prefix_end_loop-cons x xs (length xs) in
      let ih = loop_proper xs e' b.1 found in
      (λ q. ground (arith, found), λ q. ground (arith, found))
]

-- A key has the prefix exactly when it lies in the range from the prefix to prefixEnd of it, for
-- every prefix, those of bytes 0xff alone included.
pub prefix_end_range :
    (p k : Bytes) → IsBytes p → IsBytes k → (has_prefix p k ≡ true) ↔ InRange p (prefix_end p) k
unfolding prefix_end
prefix_end_range p k bp bk = elim (Option-cases (prefix_end_loop p (length p))) [
  | inl e ↦ ground (arith, e, Saturated-has_prefix p k (loop_none p bp e) bk)
  | inr (end, e) ↦ ground (arith, e, loop_some p end k bp bk e, loop_proper p end bp e)
]
