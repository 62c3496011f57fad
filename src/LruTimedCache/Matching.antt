-- ===== src/LruTimedCache/Matching.antt =====
-- `remove(key, value)` of LRUTimedCache.h.
use mathlib.Core.HLevel.{×_prop, hedberg}
use mathlib.Core.List.{mem-cons, mem-cons_self, mem-cons_of_mem, not-mem-nil, Mem-prop, mem-map}
use mathlib.Core.List.Perm
use mathlib.Core.Logic.Or
use mathlib.Core.Logic.{◌∨₁◌, ∥∥₁_elim}
use native.Mathlib.Nat.{zero-add}
use ezbake_common.Bimap.{Bimap}
use ezbake_common.Common.{
  ℕ, ◌≡◌, refl, sym, ap, ◌∙◌, ◌↔◌, Bool, true, List, [], ◌∷◌, map, Option, some, Mem, Nodup, ok,
  get_elem?, get_elem?_of_mem, mem_of_get_elem?, if_pos, if_neg,
}
use ezbake_common.Entries.Positions.{has_key, has_key-eq_true, mem-positions}
use ezbake_common.LruCache.Iterators.{deref-some, has_key_of_mem-range}
use ezbake_common.LruTimedCache.{
  CacheValue, LruTimedCache, cache_value_discrete, matching, remove_value,
}
use ezbake_common.LruTimedCache.Reads.{view}
use ezbake_common.LruTimedCache.Removal.{remove_all-Mem}
use ezbake_common.StdSet.Laws.{
  IsOrder, IsAscending, insert-IsAscending, mem-insert_self, mem-insert_of_mem, mem_of_mem-insert,
}
use ezbake_common.StdSet.{insert}

-- An entry of a pair, whatever its timestamp.
abbrev pub OfPair {ℓ} : {K V : Type ℓ} → K → V → K × CacheValue V → Type ℓ
OfPair k v e = (e.0 ≡ k) × (e.1.value ≡ v)

module _ {ℓ} {K V : Type ℓ} {dk : Discrete K} (dv : Discrete V) (B : Bimap (CacheValue V) dk)
    (less : K × CacheValue V → K × CacheValue V → Bool) (order : IsOrder less) (k : K) (v : V) where
  open B use {Store, right}

  abbrev dc : Discrete (CacheValue V)
  dc = cache_value_discrete dv

  -- What the loop over a range adds to a set.
  record Matches (s : Store) (range : List ℕ) (set set' : List (K × CacheValue V)) : Type ℓ where
    pub sound : (e : K × CacheValue V) → Mem e set' → Mem e set ∨₁ (Mem e (right s) × OfPair k v e)
    pub kept : (e : K × CacheValue V) → Mem e set → Mem e set'
    pub complete :
        (j : ℕ)
        → Mem j range
        → (t : CacheValue V) → get_elem? (right s) j ≡ some (k, t)
        → t.value ≡ v
        → Mem (k, t) set'
    pub ascending : IsAscending less set → IsAscending less set'

  matching-Matches :
      (s : Store) (range : List ℕ) (set : List (K × CacheValue V))
      → ((j : ℕ) → Mem j range → has_key dk k (get_elem? (right s) j) ≡ true)
      → (set' : List (K × CacheValue V)) × (matching dv B less s v range set ≡ ok set')
        × Matches s range set set'
  unfolding matching
  matching-Matches s [] set h = (
    set,
    refl,
    record {
      sound = λ e m. Or.inl m;
      kept = λ e m. m;
      complete = λ j m. absurd (not-mem-nil m);
      ascending = λ a. a;
    },
  )
  matching-Matches s (itr ∷ range) set h =
      let (w, at) = has_key-eq_true dk k (get_elem? (right s) itr) (h itr mem-cons_self) in
      let read = deref-some dc B s itr at in
      let valid : (j : ℕ) → Mem j range → has_key dk k (get_elem? (right s) j) ≡ true =
        λ j m. h j (mem-cons_of_mem itr m) in
      elim (dv w.value v) [
        | yes p ↦
            let (set', done, r) = matching-Matches s range (insert less (k, w) set) valid in
            (
              set',
              rw (read, matching) (rw (if_pos _ p) done),
              record {
                sound = λ e m.
                    Or.elim (hlevel) (r.sound e m)
                      (λ n.
                        Or.elim (hlevel) (mem-cons.0 (mem_of_mem-insert less (k, w) e set n))
                          (λ q. Or.inr (rw q (mem_of_get_elem? (right s) itr at, (refl, p))))
                          (λ o. Or.inl o))
                      (λ n. Or.inr n);
                kept = λ e m. r.kept e (mem-insert_of_mem less order (k, w) e set m);
                complete = λ j m t f q.
                    Or.elim Mem-prop (mem-cons.0 m)
                      (λ i.
                        let same : ◌≡◌ {A = Option (K × CacheValue V)} (some (k, w)) (some (k, t)) =
                          sym at ∙ rw i at f in
                        let pair : w ≡ t = cc in
                        rw (← pair) (r.kept (k, w) (mem-insert_self less order (k, w) set)))
                      (λ n. r.complete j n t f q);
                ascending = λ a. r.ascending (insert-IsAscending less (k, w) set a);
              },
            )
        | no n ↦
            let (set', done, r) = matching-Matches s range set valid in
            (
              set',
              rw (read, matching) (rw (if_neg _ n) done),
              record {
                sound = r.sound;
                kept = r.kept;
                complete = λ j m t f q.
                    Or.elim Mem-prop (mem-cons.0 m)
                      (λ i.
                        let same : ◌≡◌ {A = Option (K × CacheValue V)} (some (k, w)) (some (k, t)) =
                          sym at ∙ rw i at f in
                        let pair : w ≡ t = cc in absurd (n (rw pair q)))
                      (λ o. r.complete j o t f q);
                ascending = r.ascending;
              },
            )
      ]

  -- The set that is collected holds exactly the entries of the pair, in ascending order.
  pub matching-Mem :
      (s : Store)
      → (set : List (K × CacheValue V)) × (matching dv B less s v (B.equal_range s k) [] ≡ ok set)
        × ((e : K × CacheValue V) → Mem e set ↔ (Mem e (right s) × OfPair k v e))
        × IsAscending less set
  matching-Mem s =
      let (set, done, r) =
        matching-Matches s (B.equal_range s k) [] (has_key_of_mem-range dc B s k) in
      (
        set,
        done,
        λ e. (
          λ m.
              Or.elim (×_prop Mem-prop (×_prop (hedberg dk e.0 k) (hedberg dv e.1.value v)))
                (r.sound e m) (λ n. absurd (not-mem-nil n)) (λ n. n),
          λ (m, (p, q)). ∥∥₁_elim (get_elem?_of_mem m) Mem-prop (λ (i, at).
              let pair : e ≡ (k, e.1) = λ j. (p j, e.1) in
              rw pair (
                r.complete i
                  ((Perm.mem_iff (B.equal_range-positions s k)).1
                    (rw (← zero-add i) (mem-positions dk k 0 (right s) i (at ∙ ap some pair))))
                  e.1 (at ∙ ap some pair) q)),
        ),
        r.ascending tt,
      )

  -- Where the pairs are distinct `remove(key, value)` returns; it leaves exactly the entries of
  -- other pairs, and returns exactly the cache values of the pair.
  remove_value-Mem :
      (c : LruTimedCache B)
      → Nodup (view c)
      → (d : LruTimedCache B) × (removed : List (CacheValue V)) × (remove_value dv B less c k v
          ≡ ok (d, removed))
        × ((e : K × CacheValue V) → Mem e (view d) ↔ (Mem e (view c) × (¬ OfPair k v e)))
        × ((t : CacheValue V) → Mem t removed ↔ (Mem (k, t) (view c) × (t.value ≡ v)))
        × (d.expiration ≡ c.expiration)
        × (d.base.capacity ≡ c.base.capacity)
  unfolding remove_value
  remove_value-Mem c distinct =
      let (set, found, of_pair, _) = matching-Mem c.base.store in
      let (base, done, _, cap, left) = remove_all-Mem dv B set c.base distinct in
      (
        record c { base = base },
        map (λ e. e.1) set,
        rw found (rw done),
        λ e. (
          λ m. let (n, out) = (left e).0 m in (n, λ o. out ((of_pair e).1 (n, o))),
          λ (m, other). (left e).1 (m, λ o. other ((of_pair e).0 o).1),
        ),
        λ t. (
          λ m. ∥∥₁_elim (mem-map.0 m) (×_prop Mem-prop (hedberg dv t.value v)) (λ (e, o, q).
              let (n, (p, r)) = (of_pair e).0 o in
              let pair : e ≡ (k, t) = λ j. (p j, q j) in (rw pair at n, rw q at r)),
          λ (m, q). mem-map.1 ∣ ((k, t), (of_pair (k, t)).1 (m, (refl, q)), refl) ∣₁,
        ),
        refl,
        cap,
      )
