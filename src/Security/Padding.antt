-- ===== src/Security/Padding.antt =====
-- The padding of PbeMd5AndDesEncryptor.cpp, and the sizes that its casts keep.
use native.Mathlib.Nat.{zero-add, suc-add}
use ezbake_common.Common.{
  ℕ, zero, suc, ◌+◌, ◌-◌, ◌%◌, ◌^◌, ◌≤◌, ◌<◌, ◌≡◌, refl, ap, ◌∙◌, [], ◌∷◌, ◌++◌, some, Bytes, ok,
  length, length-append, get_elem?, arith,
}
use ezbake_common.Security.Base64.{to_int}
use ezbake_common.Security.Pbe.{algo_block_size, filled, without_padding, unpad}
use ezbake_common.Text.Find.{take-append}
use ezbake_common.Text.{take}

pub to_int_of_lt : (n : ℕ) → n < 2 ^ 31 → to_int n ≡ some n
unfolding to_int
to_int_of_lt n h = ground arith

pub take-length : (s : Bytes) → take (length s) s ≡ s
unfolding take
take-length [] = refl
take-length (c ∷ s) = ap (◌∷◌ c) (take-length s)

length-filled : (n c : ℕ) → length (filled n c) ≡ n
unfolding filled
length-filled zero c = refl
length-filled (suc n) c = ap suc (length-filled n c)

-- How many bytes are added, and the padded text.
abbrev pub padding : Bytes → ℕ
padding s = algo_block_size - length s % algo_block_size

abbrev pub padded : Bytes → Bytes
padded s = s ++ filled (padding s) (padding s)

length-padded : (s : Bytes) → length (padded s) ≡ length s + padding s
length-padded s =
    length-append s (filled (padding s) (padding s))
    ∙ ap (λ (n : ℕ). length s + n) (length-filled (padding s) (padding s))

-- Padding fills the last block, and adds at most one.
pub padded-blocks :
    (s : Bytes)
    → (length (padded s) % algo_block_size ≡ 0)
      × (length s < length (padded s))
      × (length (padded s) ≤ length s + algo_block_size)
padded-blocks s =
    (omega (arith, length-padded s), omega (arith, length-padded s), omega (arith, length-padded s))

get_elem?-filled : (m c : ℕ) → get_elem? (filled (suc m) c) m ≡ some c
unfolding filled
get_elem?-filled zero c = refl
get_elem?-filled (suc m) c = get_elem?-filled m c

last-filled : (s : Bytes) (m c : ℕ) → get_elem? (s ++ filled (suc m) c) (length s + m) ≡ some c
last-filled [] m c = rw zero-add (get_elem?-filled m c)
last-filled (d ∷ s) m c = rw suc-add (last-filled s m c)

unpad-filled :
    (s : Bytes) (m c n : ℕ)
    → n ≡ length s + m
    → suc n ≡ length s + c
    → c < 128
    → unpad (s ++ filled (suc m) c) (suc n) ≡ ok s
unfolding unpad without_padding
unpad-filled s m c n e f h =
    let last : get_elem? (s ++ filled (suc m) c) n ≡ some c = rw e (last-filled s m c) in
    let left : without_padding (suc n) c ≡ length s = ground arith in
    rw (last, unpad) (rw left (ap ok (take-append s (filled (suc m) c))))

unpad-filled_of_lt :
    (s : Bytes) (p n : ℕ) → 0 < p → p < 128 → n ≡ length s + p → unpad (s ++ filled p p) n ≡ ok s
unpad-filled_of_lt s zero n h k e = absurd (omega arith)
unpad-filled_of_lt s (suc m) n h k e =
    let f : n ≡ suc (length s + m) = omega arith in
    rw f (unpad-filled s m (suc m) (length s + m) refl (omega arith) k)

-- What was padded is recovered.
pub unpad-padded : (s : Bytes) → unpad (padded s) (length (padded s)) ≡ ok s
unpad-padded s =
    unpad-filled_of_lt s (padding s) (length (padded s)) (omega arith) (omega arith)
      (length-padded s)
