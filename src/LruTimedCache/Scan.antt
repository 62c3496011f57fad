-- ===== src/LruTimedCache/Scan.antt =====
-- The loop of `getKey` in LRUTimedCache.h.
use mathlib.Core.List.{mem-cons, mem-cons_self, mem-cons_of_mem, not-mem-nil, Mem-prop}
use mathlib.Core.Logic.Or
use mathlib.Core.Logic.{◌∨₁◌}
use ezbake_common.Bimap.{Bimap}
use ezbake_common.Common.{
  ℕ, suc, ◌≡◌, sym, ap, ◌∙◌, inl, inr, Bool, true, false, List, [], ◌∷◌, Option, none, some, Mem,
  Bool-cases, test, test→holds, test→fails,
}
use ezbake_common.LruTimedCache.{CacheValue, expired, get_key_scan}
use ezbake_common.StdSet.Laws.{IsOrder, mem-insert_self, mem-insert_of_mem, mem_of_mem-insert}
use ezbake_common.StdSet.{insert}

module _ {ℓ} {K V : Type ℓ} {dk : Discrete K} (dv : Discrete V) (B : Bimap (CacheValue V) dk)
    (less : K × CacheValue V → K × CacheValue V → Bool) (order : IsOrder less) (expiration : ℕ)
    (clock : ℕ → ℕ) (v : V) where
  -- An entry with the value that had expired at a reading of the clock.
  abbrev pub IsOld : K × CacheValue V → Type ℓ
  IsOld e = (e.1.value ≡ v) × ∥ ((i : ℕ) × (expired expiration (clock i) e.1.timestamp ≡ true)) ∥₁

  -- What the loop finds in the entries `l` and adds to the set.
  pub record Scans (l set : List (K × CacheValue V)) (r : Option K × List (K × CacheValue V))
      : Type ℓ where
    pub old : (e : K × CacheValue V) → Mem e r.1 → Mem e set ∨₁ (Mem e l × IsOld e)
    pub kept : (e : K × CacheValue V) → Mem e set → Mem e r.1
    pub all : r.0 ≡ none → (e : K × CacheValue V) → Mem e l → e.1.value ≡ v → Mem e r.1
    pub hit :
        (k : K)
        → r.0 ≡ some k
        → (t : ℕ) × Mem (k, record { timestamp = t; value = v }) l
          × ((i : ℕ) × (expired expiration (clock i) t ≡ false))

  pub get_key_scan-Scans :
      (i : ℕ) (l set : List (K × CacheValue V))
      → Scans l set (get_key_scan dv B less expiration clock i v l set)
  unfolding get_key_scan
  get_key_scan-Scans i [] set = record {
    old = λ e m. Or.inl m;
    kept = λ e m. m;
    all = λ _ e m _. absurd (not-mem-nil m);
    hit = λ k h. cc;
  }
  get_key_scan-Scans i (x ∷ l) set = elim (Bool-cases (test (dv x.1.value v))) [
    | inr other ↦
        let ih = get_key_scan-Scans i l set in
        rw (other, get_key_scan)
          (record {
            old = λ e m.
                Or.elim (hlevel) (ih.old e m) (λ n. Or.inl n)
                  (λ (n, o). Or.inr (mem-cons_of_mem x n, o));
            kept = ih.kept;
            all = λ h e m q.
                Or.elim Mem-prop (mem-cons.0 m)
                  (λ p. absurd (
                    test→fails (dv x.1.value v) other
                      (ap (λ (y : K × CacheValue V). y.1.value) (sym p) ∙ q)))
                  (λ n. ih.all h e n q);
            hit = λ k h. let (t, m, fresh) = ih.hit k h in (t, mem-cons_of_mem x m, fresh);
          })
    | inl same ↦ elim (Bool-cases (expired expiration (clock i) x.1.timestamp)) [
      | inl over ↦
          let ih = get_key_scan-Scans (suc i) l (insert less x set) in
          let q = test→holds (dv x.1.value v) same in
          rw (same, get_key_scan)
            (rw over (record {
              old = λ e m.
                  Or.elim (hlevel) (ih.old e m)
                    (λ n.
                      Or.elim (hlevel) (mem-cons.0 (mem_of_mem-insert less x e set n))
                        (λ p. Or.inr (rw p (mem-cons_self, (q, ∣ (i, over) ∣₁)))) (λ s. Or.inl s))
                    (λ (n, o). Or.inr (mem-cons_of_mem x n, o));
              kept = λ e m. ih.kept e (mem-insert_of_mem less order x e set m);
              all = λ h e m p.
                  Or.elim Mem-prop (mem-cons.0 m)
                    (λ s. rw s (ih.kept x (mem-insert_self less order x set)))
                    (λ n. ih.all h e n p);
              hit = λ k h. let (t, m, fresh) = ih.hit k h in (t, mem-cons_of_mem x m, fresh);
            }))
      | inr fresh ↦
          let q = test→holds (dv x.1.value v) same in
          rw (same, get_key_scan)
            (rw fresh (record {
              old = λ e m. Or.inl m;
              kept = λ e m. m;
              all = λ h e m p. cc;
              hit = λ k h.
                  let p : x.0 ≡ k = cc in
                  let s : (k, record { timestamp = x.1.timestamp; value = v }) ≡ x =
                    λ j. (sym p j, record { timestamp = x.1.timestamp; value = sym q j }) in
                  (x.1.timestamp, rw s mem-cons_self, (i, fresh));
            }))
    ]
  ]
