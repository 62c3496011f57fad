-- ===== src/LruTimedCache/Keys.antt =====
-- `getKey` of LRUTimedCache.h: the reverse lookup, which also drops expired entries.
use mathlib.Core.HLevel.{×_prop, hedberg}
use mathlib.Core.List.{not-mem-nil, dec_mem}
use mathlib.Core.Logic.Or
use mathlib.Core.Logic.{∥∥₁_prop}
use ezbake_common.Bimap.{Bimap}
use ezbake_common.Common.{
  ℕ, ◌≡◌, ◌↔◌, refl, Bool, true, false, [], Option, none, some, Mem, Nodup, ok, Option-cases, inl,
  inr,
}
use ezbake_common.Entries
use ezbake_common.LruTimedCache.{
  CacheValue, LruTimedCache, expired, get_key, get_key_scan, contains_value, cache_value_discrete,
}
use ezbake_common.LruTimedCache.Reads.{view}
use ezbake_common.LruTimedCache.Removal.{remove_all-Mem}
use ezbake_common.LruTimedCache.Scan.{get_key_scan-Scans}
use ezbake_common.StdSet.Laws.{IsOrder}

module _ {ℓ} {K V : Type ℓ} {dk : Discrete K} (dv : Discrete V) (B : Bimap (CacheValue V) dk)
    (less : K × CacheValue V → K × CacheValue V → Bool) (order : IsOrder less) where
  -- What a reverse lookup of `v` promises: it loses no entry but expired ones of `v`; a key that it
  -- returns has an entry with `v` that had not expired when the clock was read; and where it
  -- returns none, no entry with `v` is left.
  pub record Finds (c d : LruTimedCache B) (clock : ℕ → ℕ) (v : V) (key : Option K) : Type ℓ where
    pub distinct : Nodup (view d)
    pub same_expiration : d.expiration ≡ c.expiration
    pub same_capacity : d.base.capacity ≡ c.base.capacity
    pub no_more : (e : K × CacheValue V) → Mem e (view d) → Mem e (view c)
    pub lost_old :
        (e : K × CacheValue V)
        → Mem e (view c)
        → ¬ Mem e (view d)
        → (e.1.value ≡ v) × ∥ ((i : ℕ) × (expired c.expiration (clock i) e.1.timestamp ≡ true)) ∥₁
    pub found :
        (k : K)
        → key ≡ some k
        → (t : ℕ) × Mem (k, record { timestamp = t; value = v }) (view c)
          × ((i : ℕ) × (expired c.expiration (clock i) t ≡ false))
    pub not_found : key ≡ none → (e : K × CacheValue V) → e.1.value ≡ v → ¬ Mem e (view d)

  -- Where the pairs are distinct `getKey` returns, and keeps this promise at any readings of the
  -- clock.
  pub get_key-Finds :
      (c : LruTimedCache B) (clock : ℕ → ℕ) (v : V)
      → Nodup (view c)
      → (d : LruTimedCache B) × (key : Option K) × (get_key dv B less c clock v ≡ ok (d, key))
        × Finds c d clock v key
  unfolding get_key
  get_key-Finds c clock v distinct =
      let scan = get_key_scan dv B less c.expiration clock 0 v (view c) [] in
      let s = get_key_scan-Scans dv B less order c.expiration clock v 0 (view c) [] in
      let (base, done, d', cap, members) = remove_all-Mem dv B scan.1 c.base distinct in
      let ed = Entries.entry_discrete dk (cache_value_discrete dv) in
      (
        record c { base = base },
        scan.0,
        rw done,
        record {
          distinct = d';
          same_expiration = refl;
          same_capacity = cap;
          no_more = λ e m. ((members e).0 m).0;
          lost_old = λ e m out. elim (dec_mem ed e scan.1) [
            | yes o ↦
                Or.elim (×_prop (hedberg dv e.1.value v) ∥∥₁_prop) (s.old e o)
                  (λ n. absurd (not-mem-nil n)) (λ (_, o). o)
            | no n ↦ absurd (out ((members e).1 (m, n)))
          ];
          found = s.hit;
          not_found = λ h e q m. let (n, out) = (members e).0 m in out (s.all h e n q);
        },
      )

  -- Where the pairs are distinct `containsValue` returns; it has the effect of a reverse lookup,
  -- and is false exactly where that finds no key.
  pub contains_value-Finds :
      (c : LruTimedCache B) (clock : ℕ → ℕ) (v : V)
      → Nodup (view c)
      → (d : LruTimedCache B) × (key : Option K) × (there : Bool) × (contains_value dv B less c
            clock v
          ≡ ok (d, there))
        × Finds c d clock v key
        × ((there ≡ false) ↔ (key ≡ none))
  unfolding contains_value
  contains_value-Finds c clock v distinct =
      let (d, key, done, finds) = get_key-Finds c clock v distinct in
      elim (Option-cases key) [
        | inl e ↦ (d, key, false, rw done (rw e), finds, ((λ _. e), (λ _. refl)))
        | inr (k, e) ↦ (d, key, true, rw done (rw e), finds, ((λ h. cc), (λ h. cc)))
      ]
