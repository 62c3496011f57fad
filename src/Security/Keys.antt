-- ===== src/Security/Keys.antt =====
-- The keys of PbeMd5AndDesEncryptor.cpp: when `generateKey` makes one.
use ezbake_common.Common.{
  ℤ, pos, negsuc, ℕ, zero, suc, ◌+◌, ◌-◌, ◌==◌, ◌^◌, ◌≤◌, ◌<◌, ◌≡◌, ◌≢◌, ◌⊎◌, refl, inl, inr, true,
  false, ◌++◌, none, some, Bytes, ok, throw, undefined, length, arith, ltb, Option-cases,
}
use ezbake_common.OpenSsl.{Crypto}
use ezbake_common.Security.Pbe.{
  PbeMd5AndDesKey, algo_block_size, short_salt, digest, digest_error, rehash_from, rehash_loop,
  generate_data_hash, generate_key,
}
use ezbake_common.Text

module _ (crypto : Crypto) where
  digest-some : (d : Bytes) {r : Bytes} → crypto.md5 d ≡ some r → digest crypto d ≡ ok r
  unfolding digest
  digest-some d e = rw (e, digest)

  digest-none : (d : Bytes) → crypto.md5 d ≡ none → digest crypto d ≡ throw digest_error
  unfolding digest
  digest-none d e = rw (e, digest)

  -- From a count above 0 the loop ends, or a digest fails.
  rehash_from-cases :
      (n iterations : ℕ) (result : Bytes)
      → iterations ≡ 2 ^ 63 + suc n
      → ((r : Bytes) × (rehash_from crypto iterations result ≡ ok r))
        ⊎ ((d : Bytes) × (crypto.md5 d ≡ none)
            × (rehash_from crypto iterations result ≡ throw digest_error))
  unfolding rehash_from
  rehash_from-cases n zero result e = absurd (omega arith)
  rehash_from-cases zero (suc i) result e =
      let here : (i == 2 ^ 63) ≡ true = ground arith in inl (result, rw (here, rehash_from))
  rehash_from-cases (suc n) (suc i) result e =
      let more : (i == 2 ^ 63) ≡ false = ground arith in
      elim (Option-cases (crypto.md5 result)) [
        | inl f ↦ inr (result, f, rw (more, rehash_from) (rw (digest-none result f)))
        | inr (next, f) ↦ elim (rehash_from-cases n i next (omega arith)) [
          | inl (r, done) ↦ inl (r, rw (more, rehash_from) (rw (digest-some result f) done))
          | inr (d, g, failed) ↦
              inr (d, g, rw (more, rehash_from) (rw (digest-some result f) failed))
        ]
      ]

  -- From 0 or below it runs on until the counter overflows.
  rehash_from_undefined :
      (iterations : ℕ) (result : Bytes)
      → iterations ≤ 2 ^ 63
      → ((d : Bytes) → crypto.md5 d ≢ none)
      → rehash_from crypto iterations result ≡ undefined
  unfolding rehash_from
  rehash_from_undefined zero result h total = refl
  rehash_from_undefined (suc i) result h total =
      let more : (i == 2 ^ 63) ≡ false = ground arith in
      elim (Option-cases (crypto.md5 result)) [
        | inl f ↦ absurd (total result f)
        | inr (next, f) ↦
            rw (more, rehash_from)
              (rw (digest-some result f) (rehash_from_undefined i next (omega arith) total))
      ]

  pub generate_data_hash-cases :
      (password salt : Bytes) (n : ℕ)
      → algo_block_size ≤ length salt
      → ((hash : Bytes) × (generate_data_hash crypto password salt (pos (suc n)) ≡ ok hash))
        ⊎ ((d : Bytes) × (crypto.md5 d ≡ none)
            × (generate_data_hash crypto password salt (pos (suc n)) ≡ throw digest_error))
  unfolding generate_data_hash rehash_loop
  generate_data_hash-cases password salt n long =
      let enough : ltb (length salt) algo_block_size ≡ false = ground arith in
      let text = password ++ Text.take algo_block_size salt in
      elim (Option-cases (crypto.md5 text)) [
        | inl e ↦ inr (text, e, rw (enough, generate_data_hash) (rw (digest-none text e)))
        | inr (first, e) ↦ elim (rehash_from-cases n (2 ^ 63 + suc n) first refl) [
          | inl (hash, done) ↦
              inl (hash, rw (enough, generate_data_hash) (rw (digest-some text e) done))
          | inr (d, f, failed) ↦
              inr (d, f, rw (enough, generate_data_hash) (rw (digest-some text e) failed))
        ]
      ]

  generate_data_hash-returns :
      (password salt : Bytes) (n : ℕ)
      → algo_block_size ≤ length salt
      → ((d : Bytes) → crypto.md5 d ≢ none)
      → (hash : Bytes) × (generate_data_hash crypto password salt (pos (suc n)) ≡ ok hash)
  generate_data_hash-returns password salt n long total =
      elim (generate_data_hash-cases password salt n long) [
        | inl done ↦ done
        | inr (d, failed, _) ↦ absurd (total d failed)
      ]

  -- With a salt of a block or more and a positive count of iterations, a key is made.
  pub generate_key-returns :
      (password salt : Bytes) (n : ℕ)
      → algo_block_size ≤ length salt
      → ((d : Bytes) → crypto.md5 d ≢ none)
      → ((hash : Bytes)
          → generate_data_hash crypto password salt (pos (suc n)) ≡ ok hash
          → crypto.set_key_checked (crypto.set_odd_parity (Text.take algo_block_size hash)) ≢ none)
      → (key : PbeMd5AndDesKey crypto) × (schedule : crypto.Schedule) × (generate_key crypto
            password salt
            (pos (suc n))
          ≡ ok key)
        × (key.schedule ≡ some schedule)
  unfolding generate_key
  generate_key-returns password salt n long total strong =
      let (hash, done) = generate_data_hash-returns password salt n long total in
      let k = crypto.set_odd_parity (Text.take algo_block_size hash) in
      elim (Option-cases (crypto.set_key_checked k)) [
        | inl f ↦ absurd (strong hash done f)
        | inr (schedule, f) ↦ (
          record {
            schedule = crypto.set_key_checked k;
            ivec = Text.take algo_block_size (Text.drop algo_block_size hash);
          },
          schedule,
          rw (done, generate_key),
          f,
        )
      ]

  -- A short salt makes no key.
  pub generate_key-short :
      (password salt : Bytes) (iterations : ℤ)
      → length salt < algo_block_size
      → generate_key crypto password salt iterations ≡ throw short_salt
  unfolding generate_key generate_data_hash
  generate_key-short password salt iterations h =
      let few : ltb (length salt) algo_block_size ≡ true = ground arith in rw (few, generate_key)

  rehash_loop_undefined :
      (iterations : ℤ) (result : Bytes)
      → ((n : ℕ) → iterations ≢ pos (suc n))
      → ((d : Bytes) → crypto.md5 d ≢ none)
      → rehash_loop crypto iterations result ≡ undefined
  unfolding rehash_loop
  rehash_loop_undefined (pos (suc n)) result other total = absurd (other n refl)
  rehash_loop_undefined (pos zero) result other total =
      rehash_from_undefined (2 ^ 63 + 0) result (omega arith) total
  rehash_loop_undefined (negsuc m) result other total =
      rehash_from_undefined (2 ^ 63 - suc m) result (omega arith) total

  pub generate_key_undefined :
      (password salt : Bytes) (iterations : ℤ)
      → ((n : ℕ) → iterations ≢ pos (suc n))
      → algo_block_size ≤ length salt
      → ((d : Bytes) → crypto.md5 d ≢ none)
      → generate_key crypto password salt iterations ≡ undefined
  unfolding generate_key generate_data_hash
  generate_key_undefined password salt iterations other long total =
      let enough : ltb (length salt) algo_block_size ≡ false = ground arith in
      let text = password ++ Text.take algo_block_size salt in
      elim (Option-cases (crypto.md5 text)) [
        | inl e ↦ absurd (total text e)
        | inr (first, e) ↦
            rw (enough, generate_key)
              (rw (digest-some text e) (rw (rehash_loop_undefined iterations first other total)))
      ]
