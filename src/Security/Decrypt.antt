-- ===== src/Security/Decrypt.antt =====
-- When `decrypt` of PbeMd5AndDesEncryptor.cpp returns, and what, for any text that base64 decodes.
use ezbake_common.Common.{
  ℤ, ℕ, zero, suc, ◌+◌, ◌-◌, ◌≤◌, ap, ltb, leb, ◌%◌, ◌^◌, ◌<◌, ◌≡◌, ◌≢◌, ◌⊎◌, inl, inr, refl, sym,
  [], ◌∷◌, none, some, Bytes, ok, undefined, length, get_elem?, arith, Option-cases, Bool-cases,
  ◌==◌, ==_iff,
}
use ezbake_common.OpenSsl.{Bio, Crypto}
use ezbake_common.Security.Base64.{decode}
use ezbake_common.Security.Cipher.{run_cipher-some, run_cipher_undefined}
use ezbake_common.Security.Padding.{to_int_of_lt}
use ezbake_common.Security.Pbe.{
  PbeMd5AndDesKey, algo_block_size, generate_key, decrypt, unpad, unpad_int, without_padding,
}
use ezbake_common.Text.{take}

get_elem?_of_lt : (s : Bytes) (i : ℕ) → i < length s → (c : ℕ) × (get_elem? s i ≡ some c)
get_elem?_of_lt [] i h = absurd (omega arith)
get_elem?_of_lt (c ∷ s) zero h = (c, refl)
get_elem?_of_lt (c ∷ s) (suc i) h = get_elem?_of_lt s i (omega arith)

take_of_le : (n : ℕ) (s : Bytes) → length s ≤ n → take n s ≡ s
unfolding take
take_of_le zero [] h = refl
take_of_le zero (c ∷ s) h = absurd (omega arith)
take_of_le (suc n) [] h = refl
take_of_le (suc n) (c ∷ s) h = ap (◌∷◌ c) (take_of_le n s (omega arith))

-- What is left of a text whose last byte is `last`: a byte that is a count up to its length, and no
-- negative char, is the number of bytes that are cut off; else nothing is.
abbrev pub Unpadded : Bytes → ℕ → Bytes → Type 0
Unpadded s last r =
    ((last < 128) × (last ≤ length s) × (r ≡ take (length s - last) s))
    ⊎ (((128 ≤ last) ⊎ (length s < last)) × (r ≡ s))

unpad-Unpadded :
    (s : Bytes) (n : ℕ)
    → n ≡ length s
    → n ≢ 0
    → (c : ℕ) × (r : Bytes) × (get_elem? s (n - 1) ≡ some c) × (unpad s n ≡ ok r) × Unpadded s c r
unfolding unpad without_padding
unpad-Unpadded s zero e h = absurd (h refl)
unpad-Unpadded s (suc n) e h =
    let (c, f) = get_elem?_of_lt s n (omega arith) in
    let i : suc n - 1 ≡ n = omega arith in
    (
      c,
      take (without_padding (suc n) c) s,
      rw i f,
      rw (f, unpad),
      (elim (Bool-cases (ltb c 128)) [
        | inr big ↦
            let all : without_padding (suc n) c ≡ suc n + (256 - c) = ground arith in
            inr (inl (ground arith), rw all (take_of_le (suc n + (256 - c)) s (omega arith)))
        | inl small ↦ elim (Bool-cases (leb c (suc n))) [
          | inl fits ↦
              let cut : without_padding (suc n) c ≡ length s - c = ground arith in
              inl (ground arith, ground arith, rw cut refl)
          | inr over ↦
              let all : without_padding (suc n) c ≡ suc n = ground arith in
              inr (inr (ground arith), rw all (take_of_le (suc n) s (omega arith)))
        ]
      ]),
    )

module _ (crypto : Crypto) (bio : Bio) (encrypted raw password salt : Bytes) (iterations : ℤ) where
  -- Let base64 decode the text to fewer than 2^31 bytes, and let a key be made. Either the bytes
  -- are none or no whole number of blocks, or the key is weak, and `decrypt` is undefined; or it
  -- returns the decrypted bytes, without as many at the end as the last of them says where that is
  -- below 128 and no more than there are, and else all of them.
  pub decrypt-cases :
      (key : PbeMd5AndDesKey crypto)
      → decode bio encrypted ≡ ok raw
      → length raw < 2 ^ 31
      → generate_key crypto password salt iterations ≡ ok key
      → (((length raw ≡ 0) ⊎ (length raw % algo_block_size ≢ 0) ⊎ (key.schedule ≡ none))
          × (decrypt crypto bio encrypted password salt iterations ≡ undefined))
        ⊎ ((schedule : crypto.Schedule) × (last : ℕ) × (text : Bytes) × (key.schedule
              ≡ some schedule)
            × (get_elem? (crypto.cbc_decrypt schedule key.ivec raw) (length raw - 1) ≡ some last)
            × (decrypt crypto bio encrypted password salt iterations ≡ ok text)
            × Unpadded (crypto.cbc_decrypt schedule key.ivec raw) last text)
  unfolding decrypt unpad_int
  decrypt-cases key read short made =
      let int = to_int_of_lt (length raw) short in
      elim (Option-cases key.schedule) [
        | inl weak ↦
            let broken =
              run_cipher_undefined crypto crypto.cbc_decrypt key raw (length raw) (inl weak) in
            inl (inr (inr weak), rw (read, decrypt) (rw (made, int) (rw broken)))
        | inr (schedule, set) ↦ elim (Bool-cases (length raw % algo_block_size == 0)) [
          | inr cut ↦
              let cut' : length raw % algo_block_size ≢ 0 =
                λ e. let t = (==_iff (length raw % algo_block_size) 0).1 e in cc in
              let broken =
                run_cipher_undefined crypto crypto.cbc_decrypt key raw (length raw) (inr cut') in
              inl (inr (inl cut'), rw (read, decrypt) (rw (made, int) (rw broken)))
          | inl whole ↦
              let whole' : length raw % algo_block_size ≡ 0 =
                (==_iff (length raw % algo_block_size) 0).0 whole in
              let ran =
                run_cipher-some crypto crypto.cbc_decrypt key raw (length raw) set refl whole' in
              let n = crypto.length-cbc_decrypt schedule key.ivec raw whole' in
              elim (Bool-cases (length raw == 0)) [
                | inl empty ↦
                    let z : length raw ≡ 0 = (==_iff (length raw) 0).0 empty in
                    inl (inl z, rw (read, decrypt) (rw (made, int) (rw (ran, z))))
                | inr full ↦
                    let (c, text, last, done, left) =
                      unpad-Unpadded (crypto.cbc_decrypt schedule key.ivec raw) (length raw) (sym n)
                        (λ e. let t = (==_iff (length raw) 0).1 e in cc) in
                    inr (
                      schedule,
                      c,
                      text,
                      set,
                      last,
                      rw (read, decrypt) (rw (made, int) (rw ran done)),
                      left,
                    )
              ]
        ]
      ]
