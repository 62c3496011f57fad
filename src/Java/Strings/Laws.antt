-- ===== src/Java/Strings/Laws.antt =====
-- Texts with a prefix and a suffix: trimming leaves what starts and ends with other units than
-- spaces.
use ezbake_common.Common.{
  ℕ, ◌-◌, ◌+◌, ◌≤◌, ◌<◌, ◌≡◌, refl, true, false, List, [], ◌∷◌, ◌++◌, arith, length, length-append,
  ltb, leb,
}
use ezbake_common.Java.Strings.{trim, trim_start, trim_end, starts_with, ends_with, substring}
use ezbake_common.Java.{Chars, returns}
use ezbake_common.Text
use ezbake_common.Text.Find.{take-append}

pub starts_with-append : (s t : Chars) → starts_with (s ++ t) s ≡ true
unfolding starts_with
starts_with-append [] [] = refl
starts_with-append [] (c ∷ t) = refl
starts_with-append (c ∷ s) t = ground (arith, starts_with-append s t)

starts_with_self : (s : Chars) → starts_with s s ≡ true
unfolding starts_with
starts_with_self [] = refl
starts_with_self (c ∷ s) = ground (arith, starts_with_self s)

drop_append {ℓ} : {A : Type ℓ} (s t : List A) → Text.drop (length s) (s ++ t) ≡ t
unfolding Text.drop
drop_append [] t = refl
drop_append (c ∷ s) t = drop_append s t

pub ends_with-append : (s t : Chars) → ends_with (s ++ t) t ≡ true
unfolding ends_with starts_with
ends_with-append s t =
    let n = length-append s t in
    let long : ltb (length (s ++ t)) (length t) ≡ false = ground (arith, n) in
    let skipped : length (s ++ t) - length t ≡ length s = omega (arith, n) in
    rw (long, skipped, drop_append s t) (starts_with_self t)

trim_end-append : (s : Chars) (c : ℕ) → b' ' < c → trim_end (s ++ c ∷ []) ≡ s ++ c ∷ []
unfolding trim_end
trim_end-append [] c h = ground arith
trim_end-append (d ∷ []) c h = ground arith
trim_end-append (d ∷ e ∷ s) c h = rw (trim_end-append (e ∷ s) c h) refl

-- What starts and ends with a unit above the space is left.
pub trim-append :
    (b : ℕ) (s : Chars) (c : ℕ) → b' ' < b → b' ' < c → trim (b ∷ s ++ c ∷ []) ≡ b ∷ s ++ c ∷ []
unfolding trim trim_start
trim-append b s c above above' =
    let kept : leb b b' ' ≡ false = ground arith in rw (kept) (trim_end-append (b ∷ s) c above')

ends_with_of_drop : (s suffix : Chars) → ends_with s suffix ≡ true → length suffix ≤ length s
unfolding ends_with
ends_with_of_drop s suffix h = ground arith

pub starts_with-append_of :
    (s prefix : Chars) → starts_with s prefix ≡ true → (rest : Chars) × (s ≡ prefix ++ rest)
unfolding starts_with
starts_with-append_of s [] h = (s, refl)
starts_with-append_of [] (p ∷ prefix) h = cc
starts_with-append_of (c ∷ s) (p ∷ prefix) h =
    let (rest, e) = starts_with-append_of s prefix (ground arith) in
    let same : c ≡ p = ground arith in (rest, rw (same, e) refl)

length-trim_start-le : (s : Chars) → length (trim_start s) ≤ length s
unfolding trim_start
length-trim_start-le [] = omega arith
length-trim_start-le (c ∷ s) = ground (arith, length-trim_start-le s)

length-trim_end-le : (s : Chars) → length (trim_end s) ≤ length s
unfolding trim_end
length-trim_end-le [] = omega arith
length-trim_end-le (c ∷ s) = ground (arith, length-trim_end-le s)

pub length-trim-le : (s : Chars) → length (trim s) ≤ length s
unfolding trim
length-trim-le s = omega (arith, length-trim_start-le s, length-trim_end-le (trim_start s))

-- The text between the two ends.
pub substring-between :
    (before text after : Chars)
    → substring
        (before ++ (text ++ after))
        (length before)
        (length (before ++ (text ++ after)) - length after)
      ≡ returns text
unfolding substring
substring-between before text after =
    let whole = before ++ (text ++ after) in
    let n = length-append before (text ++ after) in
    let m = length-append text after in
    let end : length whole - length after ≡ length before + length text = omega (arith, n, m) in
    let size : length before + length text - length before ≡ length text = omega arith in
    let below : ltb (length before + length text) (length before) ≡ false = ground arith in
    let inside : ltb (length whole) (length before + length text) ≡ false = ground (arith, n, m) in
    rw (end, below, inside, size, drop_append before (text ++ after), take-append text after) refl

-- A range inside the text has a text.
pub substring-returns :
    (s : Chars) (start end : ℕ)
    → start ≤ end
    → end ≤ length s
    → (text : Chars) × (substring s start end ≡ returns text)
unfolding substring
substring-returns s start end h g =
    let below : ltb end start ≡ false = ground arith in
    let inside : ltb (length s) end ≡ false = ground arith in
    (Text.take (end - start) (Text.drop start s), rw (below, inside) refl)
