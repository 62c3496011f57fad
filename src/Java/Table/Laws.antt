-- ===== src/Java/Table/Laws.antt =====
-- What the tables of java.util.Properties hold after `put` and `putAll`.
use mathlib.Core.List.{mem-cons_self, mem-cons_of_mem, Nodup-cons}
use ezbake_common.Common.{◌≡◌, ◌≢◌, inl, inr, refl, false, [], ◌∷◌, Option, none, some, Mem, Nodup}
use ezbake_common.Java.Table.{Table, lookup, put, put_all, keys}
use ezbake_common.Java.{Chars}
use ezbake_common.Text
use ezbake_common.Text.Order.{equal-cases, equal_self}

-- The first of two values that is there.
abbrev pub or_else {ℓ} : {A : Type ℓ} → Option A → Option A → Option A
or_else (some a) o = some a
or_else none o = o

pub lookup-put_self : (k v : Chars) (t : Table) → lookup k (put k v t) ≡ some v
unfolding lookup put
lookup-put_self k v [] = rw (equal_self k) refl
lookup-put_self k v (e ∷ t) = elim (equal-cases e.0 k) [
  | inl (p, h) ↦ rw (h, lookup, equal_self k) refl
  | inr (n, h) ↦ rw (h, lookup) (rw h (lookup-put_self k v t))
]

pub lookup-put_other : (j k v : Chars) (t : Table) → k ≢ j → lookup j (put k v t) ≡ lookup j t
unfolding lookup put
lookup-put_other j k v [] n = elim (equal-cases k j) [
  | inl (p, h) ↦ absurd (n p)
  | inr (_, h) ↦ rw h refl
]
lookup-put_other j k v (e ∷ t) n = elim (equal-cases e.0 k) [
  | inl (p, h) ↦ elim (equal-cases k j) [
    | inl (q, _) ↦ absurd (n q)
    | inr (_, g) ↦ let g' : Text.equal e.0 j ≡ false = rw p g in rw (h, lookup, g, g') refl
  ]
  | inr (m, h) ↦ rw (h, lookup, lookup-put_other j k v t n) refl
]

pub lookup-none : (k : Chars) (t : Table) → ¬ Mem k (keys t) → lookup k t ≡ none
unfolding lookup
lookup-none k [] n = refl
lookup-none k (e ∷ t) n = elim (equal-cases e.0 k) [
  | inl (p, h) ↦ absurd (n (rw p mem-cons_self))
  | inr (_, h) ↦ rw h (lookup-none k t (λ m. n (mem-cons_of_mem e.0 m)))
]

pub lookup-some : (k v : Chars) (t : Table) → lookup k t ≡ some v → Mem k (keys t)
unfolding lookup
lookup-some k v [] h = cc
lookup-some k v (e ∷ t) h = elim (equal-cases e.0 k) [
  | inl (p, g) ↦ rw p mem-cons_self
  | inr (n, g) ↦ mem-cons_of_mem e.0 (lookup-some k v t (rw (g, lookup) at h))
]

-- The other table's entries come first, where it has one entry for each key.
pub lookup-put_all :
    (j : Chars) (t other : Table)
    → Nodup (keys other)
    → lookup j (put_all t other) ≡ or_else (lookup j other) (lookup j t)
unfolding lookup put_all
lookup-put_all j t [] d = refl
lookup-put_all j t (e ∷ other) d =
    let (fresh, d') = Nodup-cons.0 d in
    let ih = lookup-put_all j (put e.0 e.1 t) other d' in
    elim (equal-cases e.0 j) [
      | inl (p, h) ↦
          let absent = lookup-none j other (λ m. fresh (rw p m)) in
          let stored : lookup j (put e.0 e.1 t) ≡ some e.1 = rw (← p) (lookup-put_self e.0 e.1 t) in
          rw (h, ih, absent, stored) refl
      | inr (n, h) ↦ rw (h, ih, lookup-put_other j e.0 e.1 t n) refl
    ]
