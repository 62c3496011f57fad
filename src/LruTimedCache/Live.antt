-- ===== src/LruTimedCache/Live.antt =====
-- What the loop of `getKey` and the removals after it leave of the entries.
use mathlib.Core.List.{Nodup-cons, mem-cons, mem-cons_self, mem-cons_of_mem}
use mathlib.Core.HLevel.{⊥_prop}
use mathlib.Core.Logic.Or
use ezbake_common.Bimap.{Bimap}
use ezbake_common.Common.{
  ℕ, suc, ◌≡◌, sym, ap, inl, inr, Bool, List, [], ◌∷◌, none, some, Mem, Nodup, Bool-cases, test,
}
use ezbake_common.Entries.Without.{
  without, without_of_absent, without-cons_of_mem, without-cons_of_absent,
}
use ezbake_common.LruTimedCache.Removal.{ed}
use ezbake_common.LruTimedCache.Scan.{get_key_scan-Scans}
use ezbake_common.LruTimedCache.Spec.{live_key}
use ezbake_common.LruTimedCache.{CacheValue, expired, get_key_scan}
use ezbake_common.StdSet.Laws.{IsOrder, mem-insert_self, mem_of_mem-insert}
use ezbake_common.StdSet.{insert}

module _ {ℓ} {K V : Type ℓ} {dk : Discrete K} (dv : Discrete V) (B : Bimap (CacheValue V) dk)
    (less : K × CacheValue V → K × CacheValue V → Bool) (order : IsOrder less) (expiration : ℕ)
    (clock : ℕ → ℕ) (v : V) where
  -- The loop finds the key, and the entries that it does not collect are the others.
  pub get_key_scan-live_key :
      (i : ℕ) (l set : List (K × CacheValue V))
      → Nodup l
      → ((e : K × CacheValue V) → Mem e l → ¬ Mem e set)
      → let r = get_key_scan dv B less expiration clock i v l set in
        live_key dk dv expiration clock i v l ≡ (r.0, without (ed dv B) r.1 l)
  unfolding get_key_scan live_key
  get_key_scan-live_key i [] set d out =
      ap (λ (t : List (K × CacheValue V)). (none, t)) (sym (without_of_absent (ed dv B) set [] out))
  get_key_scan-live_key i (e ∷ l) set d out =
      let (new, d') = Nodup-cons.0 d in
      elim (Bool-cases (test (dv e.1.value v))) [
        | inr other ↦
            let s = get_key_scan-Scans dv B less order expiration clock v i l set in
            let ih = get_key_scan-live_key i l set d' (λ x m. out x (mem-cons_of_mem e m)) in
            rw (other, live_key, get_key_scan)
              (rw ih (
                ap
                  (λ (t : List (K × CacheValue V)).
                    ((get_key_scan dv B less expiration clock i v l set).0, t))
                  (sym (
                    without-cons_of_absent (ed dv B) l
                      (λ m. Or.elim ⊥_prop (s.old e m) (out e mem-cons_self) (λ (n, _). new n))))))
        | inl same ↦ elim (Bool-cases (expired expiration (clock i) e.1.timestamp)) [
          | inl over ↦
              let s =
                get_key_scan-Scans dv B less order expiration clock v (suc i) l
                  (insert less e set) in
              let ih = get_key_scan-live_key (suc i) l (insert less e set) d' (λ x m n.
                Or.elim ⊥_prop (mem-cons.0 (mem_of_mem-insert less e x set n))
                  (λ q. new (rw q at m)) (out x (mem-cons_of_mem e m))) in
              rw (same, live_key, get_key_scan)
                (rw over (
                  rw (without-cons_of_mem (ed dv B) l (s.kept e (mem-insert_self less order e set)))
                    ih))
          | inr fresh ↦
              rw (same, live_key, get_key_scan)
                (rw fresh (
                  ap (λ (t : List (K × CacheValue V)). (some e.0, t))
                    (sym (without_of_absent (ed dv B) set (e ∷ l) out))))
        ]
      ]
