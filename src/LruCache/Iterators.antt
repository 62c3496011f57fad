-- ===== src/LruCache/Iterators.antt =====
-- What the searches of LRUCache.h find, whatever the order of the hashed view: `getLruEntry` the
-- least recently used entry of a key, `findEntry` the entry with a key and a value.
use mathlib.Core.HLevel.{⊥_prop}
use mathlib.Core.List.Perm
use mathlib.Core.List.{mem-cons_self, mem-cons_of_mem, mem-cons, not-mem-nil}
use mathlib.Core.Logic.Or
use mathlib.Core.Logic.{∥∥₁_elim}
use native.Mathlib.Nat.{zero-add}
use native.Mathlib.Bridge.{le_prop}
use ezbake_common.Bimap.{Bimap}
use ezbake_common.Common.{
  ℕ, ◌+◌, ◌≤◌, ◌≡◌, refl, ap, ◌∙◌, ◌⊎◌, inl, inr, Bool, true, false, List, [], ◌∷◌, Option, none,
  some, Mem, Perm, ok, get_elem?, erase_idx, ltb, arith, Option-cases, if_pos, if_neg, Bool-cases,
  List-cases, ◌≢◌, get_elem?_of_mem,
}
use ezbake_common.Entries.Positions.{
  has_key, has_key-eq_true, positions-cases, mem-positions, has_key_of_mem-positions,
  le_of_positions-head,
}
use ezbake_common.Entries.{positions, oldest, drop_oldest}
use ezbake_common.LruCache.{lru_scan, lru_of_range, deref, get_lru_entry, find_in_range, find_entry}

-- The scan ends at a member of the range that no other precedes.
lru_scan-mem : (entry : ℕ) (range : List ℕ) → Mem (lru_scan entry range) (entry ∷ range)
unfolding lru_scan
lru_scan-mem entry [] = mem-cons_self
lru_scan-mem entry (itr ∷ range) = elim (Bool-cases (ltb itr entry)) [
  | inl e ↦ rw e (mem-cons_of_mem entry (lru_scan-mem itr range))
  | inr e ↦ rw e (
      Or.elim (λ a b. squash₁ a b) (mem-cons.0 (lru_scan-mem entry range)) (λ q. rw q mem-cons_self)
        (λ m. mem-cons_of_mem entry (mem-cons_of_mem itr m)))
]

lru_scan-le : (entry : ℕ) (range : List ℕ) → lru_scan entry range ≤ entry
unfolding lru_scan
lru_scan-le entry [] = omega arith
lru_scan-le entry (itr ∷ range) = ground (arith, lru_scan-le itr range, lru_scan-le entry range)

lru_scan-le_of_mem : (entry : ℕ) (range : List ℕ) (j : ℕ) → Mem j range → lru_scan entry range ≤ j
unfolding lru_scan
lru_scan-le_of_mem entry [] j m = absurd (not-mem-nil m)
lru_scan-le_of_mem entry (itr ∷ range) j m =
    Or.elim le_prop (mem-cons.0 m)
      (λ (q : j ≡ itr). ground (arith, lru_scan-le itr range, lru_scan-le entry range))
      (λ n.
        let a = lru_scan-le_of_mem itr range j n in
        let b = lru_scan-le_of_mem entry range j n in ground arith)

lru_scan-perm :
    (x : ℕ) (xs : List ℕ) (p : ℕ) (r : List ℕ)
    → Perm (x ∷ xs) (p ∷ r)
    → ((j : ℕ) → Mem j (p ∷ r) → p ≤ j)
    → lru_scan x (x ∷ xs) ≡ p
unfolding lru_scan
lru_scan-perm x xs p r perm least =
    let found : Mem (lru_scan x xs) (x ∷ xs) = lru_scan-mem x xs in
    let a = least (lru_scan x xs) ((Perm.mem_iff perm).0 found) in
    let b : lru_scan x (x ∷ xs) ≤ p =
      lru_scan-le_of_mem x (x ∷ xs) p ((Perm.mem_iff perm).1 mem-cons_self) in
    ground arith

module _ {ℓ} {K V : Type ℓ} {dk : Discrete K} (dv : Discrete V) (B : Bimap V dk) where
  open B use {Store, right}

  pub get_lru_entry-cases :
      (s : Store) (k : K)
      → ((oldest dk k (right s) ≡ none) × (get_lru_entry dv B s k ≡ (false, none)))
        ⊎ ((v : V) × (p : ℕ) × (oldest dk k (right s) ≡ some v)
            × (get_lru_entry dv B s k ≡ (true, some p))
            × (get_elem? (right s) p ≡ some (k, v))
            × (erase_idx (right s) p ≡ drop_oldest dk k (right s)))
  unfolding get_lru_entry lru_of_range
  get_lru_entry-cases s k = elim (positions-cases dk k 0 (right s)) [
    | inl (o, nowhere) ↦ elim (Option-cases (B.find s k)) [
      | inl f ↦ inl (o, rw (f, get_lru_entry))
      | inr (i, f) ↦
          absurd (B.find-some s k i f (Perm.eq-nil (rw nowhere at (B.equal_range-positions s k))))
    ]
    | inr (v, p, r, o, first, g, d) ↦
        inr (v, p, o, found p r first (le_of_positions-head dk k 0 (right s) first), g, d)
  ]
    where
      found :
          (p : ℕ) (r : List ℕ)
          → positions dk 0 k (right s) ≡ (0 + p) ∷ r
          → ((j : ℕ) → Mem j (positions dk 0 k (right s)) → 0 + p ≤ j)
          → get_lru_entry dv B s k ≡ (true, some p)
      found p r first least =
          let perm = rw first at (B.equal_range-positions s k) in
          let nonempty : B.equal_range s k ≢ [] = λ e. cc (Perm.nil-eq (rw e at perm)) in
          elim (Option-cases (B.find s k)) [
            | inl f ↦ absurd (nonempty (B.find-none s k f))
            | inr (i, f) ↦ elim (List-cases (B.equal_range s k)) [
              | inl e ↦ absurd (nonempty e)
              | inr (x, xs, e) ↦
                  let q : lru_scan x (x ∷ xs) ≡ 0 + p =
                    lru_scan-perm x xs (0 + p) r (rw e at perm) (rw first at least) in
                  rw (f, get_lru_entry, e)
                    (ap (λ (n : ℕ). (let t : Bool × Option ℕ = (true, some n) in t))
                      (q ∙ zero-add p))
            ]
          ]

  -- An iterator at an entry is read.
  pub deref-some :
      (s : Store) (i : ℕ) {e : K × V}
      → get_elem? (right s) i ≡ some e
      → deref dv B s (some i) ≡ ok e
  unfolding deref
  deref-some s i h = rw (h, deref)

  -- `findEntry` reads no invalid iterator. It ends at a position of the pair, or there is none.
  find_in_range-cases :
      (s : Store) (k : K) (v : V) (range : List ℕ)
      → ((j : ℕ) → Mem j range → has_key dk k (get_elem? (right s) j) ≡ true)
      → ((find_in_range dv B s v range ≡ ok none)
          × ((j : ℕ) → Mem j range → get_elem? (right s) j ≢ some (k, v)))
        ⊎ ((i : ℕ) × (find_in_range dv B s v range ≡ ok (some i))
            × (get_elem? (right s) i ≡ some (k, v)))
  unfolding find_in_range
  find_in_range-cases s k v [] h = inl (refl, λ j m. absurd (not-mem-nil m))
  find_in_range-cases s k v (itr ∷ range) h =
      let (w, e) = has_key-eq_true dk k (get_elem? (right s) itr) (h itr mem-cons_self) in
      let read = deref-some s itr e in
      elim (dv w v) [
        | yes p ↦ inr (itr, rw (read, find_in_range) (rw (if_pos _ p)), ground arith)
        | no n ↦ elim (find_in_range-cases s k v range (λ j m. h j (mem-cons_of_mem itr m))) [
          | inl (missed, others) ↦ inl (
            rw (read, find_in_range) (rw (if_neg _ n) missed),
            λ j m q. Or.elim ⊥_prop (mem-cons.0 m) (λ r. n (ground arith)) (λ o. others j o q),
          )
          | inr (i, hit, at) ↦ inr (i, rw (read, find_in_range) (rw (if_neg _ n) hit), at)
        ]
      ]

  pub has_key_of_mem-range :
      (s : Store) (k : K) (j : ℕ)
      → Mem j (B.equal_range s k)
      → has_key dk k (get_elem? (right s) j) ≡ true
  has_key_of_mem-range s k j m =
      has_key_of_mem-positions dk k 0 (right s) j
        (rw zero-add ((Perm.mem_iff (B.equal_range-positions s k)).0 m))

  pub find_entry-cases :
      (s : Store) (k : K) (v : V)
      → ((find_entry dv B s k v ≡ ok none) × (¬ Mem (k, v) (right s)))
        ⊎ ((i : ℕ) × (find_entry dv B s k v ≡ ok (some i)) × (get_elem? (right s) i ≡ some (k, v)))
  unfolding find_entry
  find_entry-cases s k v =
      elim (find_in_range-cases s k v (B.equal_range s k) (has_key_of_mem-range s k)) [
        | inl (missed, others) ↦ inl (
          missed,
          λ m. ∥∥₁_elim (get_elem?_of_mem m) ⊥_prop (λ (i, at).
              others i
                ((Perm.mem_iff (B.equal_range-positions s k)).1
                  (rw (← zero-add i) (mem-positions dk k 0 (right s) i at)))
                at),
        )
        | inr found ↦ inr found
      ]
