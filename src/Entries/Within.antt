-- ===== src/Entries/Within.antt =====
-- How far an element stands from the end of a list.
use mathlib.Core.List.{append_assoc, erase, erase-sublist, erase-cons-head, erase-cons-tail}
use ezbake_common.Common.{
  ℕ, suc, ◌≤◌, ◌<◌, ◌≡◌, ◌≢◌, ◌⊎◌, inl, inr, refl, sym, ap, ◌∙◌, true, not, ◌&&◌, leb, ◌==◌, List,
  [], ◌∷◌, ◌++◌, length, length-append, Bool-cases, arith, erase_idx,
}
use ezbake_common.Entries.Unique.{length-le_of_Sublist}
use ezbake_common.Entries.{make_room}

-- An element with at most `j` elements behind it.
pub record Within {ℓ} {A : Type ℓ} (x : A) (j : ℕ) (l : List A) : Type ℓ where
  pub before : List A
  pub after : List A
  pub split : l ≡ before ++ x ∷ after
  pub few : length after ≤ j

-- Room for an element with `j` elements behind it; a capacity of 0 is no limit.
abbrev pub Room : ℕ → ℕ → Type 0
Room capacity j = (capacity ≡ 0) ⊎ (j < capacity)

pub Within-suc {ℓ} : {A : Type ℓ} {x : A} {j : ℕ} {l : List A} → Within x j l → Within x (suc j) l
Within-suc h = record {
  before = h.before;
  after = h.after;
  split = h.split;
  few = let f = h.few in omega arith;
}

module _ {ℓ} {A : Type ℓ} (dec : Discrete A) (x : A) where
  Within-cons : (y : A) {j : ℕ} {l : List A} → Within x j l → Within x j (y ∷ l)
  Within-cons y w = record {
    before = y ∷ w.before;
    after = w.after;
    split = ap (◌∷◌ y) w.split;
    few = w.few;
  }

  -- Another element that is erased brings it no nearer to the front.
  pub Within-erase :
      (y : A) (before after l : List A) (j : ℕ)
      → y ≢ x
      → l ≡ before ++ x ∷ after
      → length after ≤ j
      → Within x j (erase dec l y)
  Within-erase y [] after l j n e h =
      let b = length-le_of_Sublist (erase-sublist dec y {l = after}) in
      record {
        before = [];
        after = erase dec after y;
        split = rw e (erase-cons-tail dec after (λ (q : x ≡ y). n (sym q)));
        few = omega arith;
      }
  Within-erase y (z ∷ before) after l j n e h = elim (dec z y) [
    | yes p ↦ record {
      before = before;
      after = after;
      split = rw (e, p) (erase-cons-head dec y (before ++ x ∷ after));
      few = h;
    }
    | no o ↦
        rw (e, erase-cons-tail dec (before ++ x ∷ after) o)
          (Within-cons z (Within-erase y before after (before ++ x ∷ after) j n refl h))
  ]

  pub Within-append : (y : A) {j : ℕ} {l : List A} → Within x j l → Within x (suc j) (l ++ y ∷ [])
  Within-append y {j} {l} w = record {
    before = w.before;
    after = w.after ++ y ∷ [];
    split = ap (λ (t : List A). t ++ y ∷ []) w.split ∙ append_assoc w.before (x ∷ w.after) (y ∷ []);
    few = let h = w.few in omega (arith, length-append w.after (y ∷ []));
  }

  pub Within-last : (l : List A) (j : ℕ) → Within x j (l ++ x ∷ [])
  Within-last l j = record { before = l; after = []; split = refl; few = omega arith }

  pub Within-make_room :
      (capacity j : ℕ) (l : List A)
      → Room capacity (suc j)
      → Within x j l
      → Within x j (make_room capacity l)
  unfolding make_room
  Within-make_room capacity j l room w =
      elim (Bool-cases (not (capacity == 0) && leb capacity (length l))) [
        | inr e ↦ rw e w
        | inl e ↦ rw e (dropped w.before w.after l w.split w.few room e)
      ]
    where
      dropped :
          (before after l : List A)
          → l ≡ before ++ x ∷ after
          → length after ≤ j
          → Room capacity (suc j)
          → (not (capacity == 0) && leb capacity (length l)) ≡ true
          → Within x j (erase_idx l 0)
      dropped [] after l e h (inl z) full = absurd (ground arith)
      dropped [] after l e h (inr r) full = absurd (ground (arith, ap length e))
      dropped (z ∷ before) after l e h room full =
          rw e (record { before = before; after = after; split = refl; few = h })
