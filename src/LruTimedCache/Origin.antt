-- ===== src/LruTimedCache/Origin.antt =====
-- Where the values of an LRUTimedCache come from: whatever critical sections the threads ran, a
-- value that a caller reads was put, and has not expired since.
use mathlib.Core.List.{mem-cons_self, mem-cons_of_mem, not-mem-nil}
use mathlib.Core.Logic.Or
use mathlib.Core.Logic.{◌∨₁◌, ∥∥₁_map}
use ezbake_common.Bimap.{Bimap}
use ezbake_common.Common.{
  ℕ, ◌^◌, ◌+◌, ◌*◌, ◌<◌, ◌≡◌, ◌⊎◌, inl, inr, refl, sym, ap, ◌∙◌, Bool, false, List, [], ◌∷◌, some,
  Mem, ok, arith, ◌==◌, leb, Bool-cases,
}
use ezbake_common.LruCache.Run.{IsValid, init-IsValid}
use ezbake_common.LruTimedCache
use ezbake_common.LruTimedCache.Expiry.{expired-stamp}
use ezbake_common.LruTimedCache.Reads.{view, get_and_pop-fresh}
use ezbake_common.LruTimedCache.Sections.{Section, run_sections}
use ezbake_common.LruTimedCache.Traced.{put_of, run_section-Traced}
use ezbake_common.LruTimedCache.{
  CacheValue, LruTimedCache, cache_value_discrete, stamp, expired, microseconds, end_of_dates,
}
use ezbake_common.StdSet.Laws.{IsOrder}

-- A put of a value under a key that has not expired at `now`: where entries expire, less than the
-- expiration, in seconds, has passed since it.
abbrev pub FreshPut {ℓ} : {K V : Type ℓ} → ℕ → ℕ → K → V → List (Section K V) → Type ℓ
FreshPut expiration now k v sections = ∥ (
    (put : ℕ) × Mem (Section.put put k v) sections
    × ((expiration ≡ 0) ⊎ (now < put + expiration * microseconds))) ∥₁

-- What has not expired was put less than the expiration ago.
alive {ℓ} :
    {V : Type ℓ} (expiration put now t : ℕ) (v : V)
    → t ≡ (stamp put v).timestamp
    → now < end_of_dates
    → expired expiration now t ≡ false
    → (expiration ≡ 0) ⊎ (now < put + expiration * microseconds)
alive expiration put now t v p date fresh = elim (Bool-cases (expiration == 0)) [
  | inl z ↦ inl (ground arith)
  | inr n ↦ elim (Bool-cases (leb (put + expiration * microseconds) now)) [
    | inr f ↦ inr (ground arith)
    | inl o ↦
        let old =
          (expired-stamp expiration put now v (λ e. ground arith) (ground arith) date).0
            (ground arith) in
        let new = rw p at fresh in absurd (cc)
  ]
]

put_of-eq_some {ℓ} :
    {K V : Type ℓ} (section : Section K V) (k : K) (t : CacheValue V)
    → put_of section ≡ some (k, t)
    → (now : ℕ) × (section ≡ Section.put now k t.value) × (t ≡ stamp now t.value)
unfolding put_of stamp
put_of-eq_some {K} {V} (Section.put now j w) k t h =
    let p : j ≡ k = cc in
    let q : stamp now w ≡ t = cc in
    let r : w ≡ t.value = ap (λ (x : CacheValue V). x.value) q in
    (now, (λ i. Section.put now (p i) (r i)), sym q ∙ ap (stamp now) r)
put_of-eq_some _ k t h = cc

module _ {ℓ} {K V : Type ℓ} {dk : Discrete K} (dv : Discrete V) (B : Bimap (CacheValue V) dk)
    (less : K × CacheValue V → K × CacheValue V → Bool) (order : IsOrder less) where
  run_sections-Mem :
      (sections : List (Section K V)) (c : LruTimedCache B)
      → IsValid c.base
      → (d : LruTimedCache B) × (run_sections dv B less c sections ≡ ok d)
        × IsValid d.base
        × (d.expiration ≡ c.expiration)
        × ((e : K × CacheValue V)
            → Mem e (view d)
            → ∥ ((s : Section K V) × Mem s sections × (put_of s ≡ some e)) ∥₁ ∨₁ Mem e (view c))
  unfolding run_sections
  run_sections-Mem [] c valid = (c, refl, valid, refl, λ e m. Or.inr m)
  run_sections-Mem (section ∷ sections) c valid =
      let (c', done, valid', same, from) = run_section-Traced dv B less order c section valid in
      let (d, rest, valid'', same', from') = run_sections-Mem sections c' valid' in
      (
        d,
        rw (done, run_sections) rest,
        valid'',
        same' ∙ same,
        λ e m.
            Or.elim (hlevel) (from' e m)
              (λ o. Or.inl (∥∥₁_map o (λ (s, n, q). (s, mem-cons_of_mem section n, q))))
              (λ n.
                Or.elim (hlevel) (from e n) (λ q. Or.inl ∣ (section, mem-cons_self, q) ∣₁)
                  (λ o. Or.inr o)),
      )

  -- Let the sets' order be a strict total order. After any critical sections, in any order, on a
  -- new cache, a value that `get` or `pop` returns for a key, at a reading of the clock before the
  -- end of the dates, was put under that key by one of them, and where entries expire, less than the
  -- expiration has passed between that put and the read.
  pub get_and_pop-put :
      (capacity expiration : ℕ) (sections : List (Section K V)) (d d' : LruTimedCache B) (now : ℕ)
      (k : K) (v : V)
      → capacity < 2 ^ 32
      → now < end_of_dates
      → run_sections dv B less (LruTimedCache.init dv B capacity expiration) sections ≡ ok d
      → (LruTimedCache.get dv B d now k ≡ ok (d', some v))
        ⊎ (LruTimedCache.pop dv B d now k ≡ ok (d', some v))
      → FreshPut expiration now k v sections
  unfolding LruTimedCache.init
  get_and_pop-put capacity expiration sections d d' now k v bound date done read =
      let c : LruTimedCache B = LruTimedCache.init dv B capacity expiration in
      let (valid, empty) = init-IsValid (cache_value_discrete dv) B capacity bound in
      let (d₁, done₁, valid₁, same₁, from₁) = run_sections-Mem sections c valid in
      let twice : ok d₁ ≡ ok d = sym done₁ ∙ done in
      let q : d₁ ≡ d = cc in
      let valid' : IsValid d.base = rw q at valid₁ in
      let same : d.expiration ≡ expiration = rw q at same₁ in
      let (t, m, fresh) = get_and_pop-fresh dv B d d' now k v valid'.distinct read in
      Or.elim (hlevel) (from₁ (k, record { timestamp = t; value = v }) (rw (← q) at m))
        (λ o. ∥∥₁_map o (λ (s, n, p).
          let (put, is_put, stamped) = put_of-eq_some s k (record { timestamp = t; value = v }) p in
          (
            put,
            rw is_put at n,
            alive expiration put now t v (ap (λ (x : CacheValue V). x.timestamp) stamped) date
                (rw same at fresh),
          )))
        (λ n. absurd (not-mem-nil (rw empty at n)))
