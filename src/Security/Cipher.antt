-- ===== src/Security/Cipher.antt =====
-- The cipher calls of PbeMd5AndDesEncryptor.cpp: when they are defined.
use ezbake_common.Common.{
  ◌⊎◌, false, ℕ, ◌%◌, ◌≡◌, ◌≢◌, sym, inl, inr, true, none, some, Bytes, Outcome, ok, undefined,
  length, arith, ◌==◌, Option-cases, Bool-cases,
}
use ezbake_common.OpenSsl.{Crypto}
use ezbake_common.Security.Padding.{take-length}
use ezbake_common.Security.Pbe.{PbeMd5AndDesKey, algo_block_size, run_cipher}
use ezbake_common.Text

module _ (crypto : Crypto) where
  -- A cipher that returns had a schedule, and was given whole blocks.
  pub run_cipher-eq_ok :
      (cipher : crypto.Schedule → Bytes → Bytes → Bytes) (key : PbeMd5AndDesKey crypto)
      (d out : Bytes)
      → run_cipher crypto cipher key d (some (length d)) ≡ ok out
      → (schedule : crypto.Schedule) × (key.schedule ≡ some schedule)
        × (out ≡ cipher schedule key.ivec d)
  unfolding run_cipher
  run_cipher-eq_ok cipher key d out h = elim (Bool-cases (length d % algo_block_size == 0)) [
    | inr e ↦ let q : ◌≡◌ {A = Outcome Bytes} undefined (ok out) = rw (e, run_cipher) at h in cc
    | inl e ↦ elim (Option-cases key.schedule) [
      | inl f ↦
          let q : ◌≡◌ {A = Outcome Bytes} undefined (ok out) = rw (e, f, run_cipher) at h in cc
      | inr (schedule, f) ↦
          let q : ok (cipher schedule key.ivec (Text.take (length d) d)) ≡ ok out =
            rw (e, f, run_cipher) at h in
          let r : ok (cipher schedule key.ivec d) ≡ ok out = rw (take-length d) at q in
          (schedule, f, (let s : cipher schedule key.ivec d ≡ out = cc in sym s))
    ]
  ]

  pub run_cipher-some :
      (cipher : crypto.Schedule → Bytes → Bytes → Bytes) (key : PbeMd5AndDesKey crypto) (d : Bytes)
      (n : ℕ) {schedule : crypto.Schedule}
      → key.schedule ≡ some schedule
      → n ≡ length d
      → n % algo_block_size ≡ 0
      → run_cipher crypto cipher key d (some n) ≡ ok (cipher schedule key.ivec d)
  unfolding run_cipher
  run_cipher-some cipher key d n e s h =
      let w : (n % algo_block_size == 0) ≡ true = ground arith in
      rw (w, e, run_cipher) (rw s (rw (take-length d)))

  pub run_cipher_undefined :
      (cipher : crypto.Schedule → Bytes → Bytes → Bytes) (key : PbeMd5AndDesKey crypto) (d : Bytes)
      (n : ℕ)
      → (key.schedule ≡ none) ⊎ (n % algo_block_size ≢ 0)
      → run_cipher crypto cipher key d (some n) ≡ undefined
  unfolding run_cipher
  run_cipher_undefined cipher key d n (inr h) =
      let w : (n % algo_block_size == 0) ≡ false = ground arith in rw (w, run_cipher)
  run_cipher_undefined cipher key d n (inl e) = elim (Bool-cases (n % algo_block_size == 0)) [
    | inl w ↦ rw (w, run_cipher) (rw e)
    | inr w ↦ rw (w, run_cipher)
  ]
