-- ===== src/Entries/Last.antt =====
-- The end of a list.
use ezbake_common.Common.{ℕ, ◌-◌, ◌≤◌, ◌≡◌, refl, List, [], ◌∷◌, ◌++◌, length, length-append, arith}
use ezbake_common.Text.{drop}

-- The last `n` elements of a list.
unfoldable pub last {ℓ} : {A : Type ℓ} → ℕ → List A → List A
unfolding drop
last n l = drop (length l - n) l

drop-length {ℓ} : {A : Type ℓ} (xs ys : List A) → drop (length xs) (xs ++ ys) ≡ ys
unfolding drop
drop-length [] ys = refl
drop-length (x ∷ xs) ys = drop-length xs ys

pub last-append {ℓ} : {A : Type ℓ} (xs ys : List A) → last (length ys) (xs ++ ys) ≡ ys
unfolding last
last-append xs ys =
    let n : length (xs ++ ys) - length ys ≡ length xs = omega (arith, length-append xs ys) in
    rw (n, last) (drop-length xs ys)

pub last_of_short {ℓ} : {A : Type ℓ} (n : ℕ) (l : List A) → length l ≤ n → last n l ≡ l
unfolding last drop
last_of_short n l h = let z : length l - n ≡ 0 = omega arith in rw (z, last)
