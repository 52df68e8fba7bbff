-- ===== src/Types/Isbn/Checksum.antt =====
-- The check digits of isbn.rs: what they admit, and which slips they catch.
use livtet.Base.{
  ℕ, zero, suc, ◌+◌, ◌-◌, ◌*◌, ◌%◌, ◌≤◌, ◌<◌, Bool, true, false, [], ◌∷◌, ◌++◌, ◌≡◌, ◌≢◌, refl, ap,
  ◌⊎◌, inl, inr, arith, ◌==◌, Bool-cases, ==_iff, and_parts, length, all, take, drop, length-append,
  all-append,
}
use livtet.Base.Text.{Text, codes, is_ascii_digit}
use livtet.Types.Isbn.{
  digit_value, sum10, sum13, weight13, is_valid_isbn13, is_valid_isbn10, isbn13_check_digit,
  upgrade_isbn10_to_13, check10,
}

pub sum13-append :
    (xs ys : Text) (i : ℕ) → sum13 i (xs ++ ys) ≡ sum13 i xs + sum13 (i + length xs) ys
unfolding sum13
sum13-append [] ys i = ground arith
sum13-append (x ∷ xs) ys i = ground (arith, sum13-append xs ys (i + 1))

pub sum10-append :
    (xs ys : Text) (i : ℕ) → sum10 i (xs ++ ys) ≡ sum10 i xs + sum10 (i + length xs) ys
unfolding sum10
sum10-append [] ys i = ground arith
sum10-append (x ∷ xs) ys i = ground (arith, sum10-append xs ys (i + 1))

check_digit-IsDigit : (s : Text) → is_ascii_digit (isbn13_check_digit s) ≡ true
unfolding isbn13_check_digit is_ascii_digit
check_digit-IsDigit s = ground arith

check_digit-value : (s : Text) → digit_value (isbn13_check_digit s) ≡ (10 - sum13 0 s % 10) % 10
unfolding isbn13_check_digit digit_value is_ascii_digit
check_digit-value s = ground arith

sum13-concat :
    (t : Text) (c : ℕ) → length t ≡ 12 → sum13 0 (t ++ c ∷ []) ≡ sum13 0 t + digit_value c
unfolding sum13
sum13-concat t c n = ground (arith, sum13-append t (c ∷ []) 0, ap weight13 n)

-- The check digit computed for twelve digits completes them to a valid ISBN-13.
pub is_valid_isbn13-check_digit :
    (twelve : Text)
    → length twelve ≡ 12
    → all is_ascii_digit twelve ≡ true
    → is_valid_isbn13 (twelve ++ isbn13_check_digit twelve ∷ []) ≡ true
unfolding is_valid_isbn13
is_valid_isbn13-check_digit t n d =
    let c = isbn13_check_digit t in
    ground (
      arith,
      length-append t (c ∷ []),
      check_digit-IsDigit t,
      sum13-concat t c n,
      all-append is_ascii_digit t (c ∷ []),
      check_digit-value t,
    )

pub is_valid_isbn13-parts :
    (s : Text)
    → is_valid_isbn13 s ≡ true
    → (length s ≡ 13) × (all is_ascii_digit s ≡ true) × (sum13 0 s % 10 ≡ 0)
unfolding is_valid_isbn13
is_valid_isbn13-parts s h = ground arith

all-middle : (p : ℕ → Bool) (xs ys : Text) (x : ℕ) → all p (xs ++ x ∷ ys) ≡ true → p x ≡ true
all-middle p [] ys x h = ground arith
all-middle p (z ∷ xs) ys x h = ground (arith, all-middle p xs ys x)

digit_of_value :
    (x y : ℕ)
    → is_ascii_digit x ≡ true
    → is_ascii_digit y ≡ true
    → digit_value x ≡ digit_value y
    → x ≡ y
unfolding is_ascii_digit digit_value
digit_of_value x y h k e = ground arith

digit_value-lt : (x : ℕ) → digit_value x < 10
unfolding is_ascii_digit digit_value
digit_value-lt x = ground arith

weighted13 :
    (a b w x y : ℕ)
    → x < 10
    → y < 10
    → (w ≡ 1) ⊎ (w ≡ 3)
    → (a + (x * w + b)) % 10 ≡ 0
    → (a + (y * w + b)) % 10 ≡ 0
    → x ≡ y
weighted13 a b w x y hx hy (inl e) h k =
    omega (arith, ap (λ (t : ℕ). x * t) e, ap (λ (t : ℕ). y * t) e)
weighted13 a b w x y hx hy (inr e) h k =
    omega (arith, ap (λ (t : ℕ). x * t) e, ap (λ (t : ℕ). y * t) e)

weight13-cases : (i : ℕ) → (weight13 i ≡ 1) ⊎ (weight13 i ≡ 3)
weight13-cases i = elim (Bool-cases (i % 2 == 0)) [ inl e ↦ inl (rw e) | inr e ↦ inr (rw e) ]

same_digit13 :
    (before after : Text) (x y : ℕ)
    → is_valid_isbn13 (before ++ x ∷ after) ≡ true
    → is_valid_isbn13 (before ++ y ∷ after) ≡ true
    → x ≡ y
unfolding sum13
same_digit13 before after x y h k =
    let (_, dx, sx) = is_valid_isbn13-parts (before ++ x ∷ after) h in
    let (_, dy, sy) = is_valid_isbn13-parts (before ++ y ∷ after) k in
    let e =
      weighted13 (sum13 0 before) (sum13 (0 + length before + 1) after)
        (weight13 (0 + length before)) (digit_value x) (digit_value y) (digit_value-lt x)
        (digit_value-lt y) (weight13-cases (0 + length before))
        (rw (sum13-append before (x ∷ after) 0) at sx)
        (rw (sum13-append before (y ∷ after) 0) at sy) in
    digit_of_value x y (all-middle is_ascii_digit before after x dx)
      (all-middle is_ascii_digit before after y dy) e

-- Replacing one character of a valid ISBN-13 by another one gives a text that is no valid ISBN-13.
pub one_digit13 :
    (before after : Text) (x y : ℕ)
    → is_valid_isbn13 (before ++ x ∷ after) ≡ true
    → x ≢ y
    → is_valid_isbn13 (before ++ y ∷ after) ≡ false
one_digit13 before after x y h n = elim (Bool-cases (is_valid_isbn13 (before ++ y ∷ after))) [
  | inl e ↦ absurd (n (same_digit13 before after x y h e))
  | inr e ↦ e
]

take-IsDigit :
    (n : ℕ) (s : Text) → all is_ascii_digit s ≡ true → all is_ascii_digit (take n s) ≡ true
take-IsDigit zero s h = refl
take-IsDigit (suc n) [] h = refl
take-IsDigit (suc n) (c ∷ s) h = ground (arith, take-IsDigit n s)

length-take : (n : ℕ) (s : Text) → n ≤ length s → length (take n s) ≡ n
length-take zero s h = refl
length-take (suc n) [] h = absurd (omega arith)
length-take (suc n) (c ∷ s) h = ap suc (length-take n s (omega arith))

check10-first : (first rest : Text) → check10 first rest ≡ true → all is_ascii_digit first ≡ true
unfolding check10
check10-first first [] h = cc
check10-first first (c ∷ rest) h = ground arith

is_valid_isbn10-parts :
    (s : Text) → is_valid_isbn10 s ≡ true → (length s ≡ 10) × (all is_ascii_digit (take 9 s) ≡ true)
unfolding is_valid_isbn10
is_valid_isbn10-parts s h =
    let (n, c) = and_parts (length s == 10) (check10 (take 9 s) (drop 9 s)) h in
    ((==_iff (length s) 10).0 n, check10-first (take 9 s) (drop 9 s) c)

-- A valid ISBN-10 is upgraded to a valid ISBN-13.
pub is_valid_isbn13-upgrade_isbn10_to_13 :
    (isbn10 : Text)
    → is_valid_isbn10 isbn10 ≡ true
    → is_valid_isbn13 (upgrade_isbn10_to_13 isbn10) ≡ true
unfolding upgrade_isbn10_to_13
is_valid_isbn13-upgrade_isbn10_to_13 s h =
    let (n, d) = is_valid_isbn10-parts s h in
    is_valid_isbn13-check_digit (codes "978" ++ take 9 s)
      (ap (λ (t : ℕ). suc (suc (suc t))) (length-take 9 s (omega arith)))
      (unfold is_ascii_digit in d)
