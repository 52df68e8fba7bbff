-- ===== src/Types/Isbn/Canonical.antt =====
-- What `Isbn::parse` returns, and that it reads its own canonical form back.
use livtet.Base.{ℕ, true, none, [], ◌∷◌, ◌≡◌, refl, arith, and_parts, all, all-reverse, reverse}
use mathlib.Core.List.{reverse-reverse}
use livtet.Base.Text.{Text, is_ascii_digit, trim, trim_start}
use livtet.Base.Result.{ok}
use livtet.Types.Isbn.{
  Isbn, is_valid_isbn13, parse, parse_cleaned, by_length, find_bad, clean, strip_isbn_prefix,
  keep_significant,
}
use livtet.Types.Isbn.Checksum.{is_valid_isbn13-upgrade_isbn10_to_13, is_valid_isbn13-parts}

by_length-IsValid : (s : Text) (i : Isbn) → by_length s ≡ ok i → is_valid_isbn13 i.text ≡ true
unfolding by_length
by_length-IsValid s i h = ground (arith, is_valid_isbn13-upgrade_isbn10_to_13 s)

pub parse-IsValid : (s : Text) (i : Isbn) → parse s ≡ ok i → is_valid_isbn13 i.text ≡ true
unfolding parse parse_cleaned
parse-IsValid s i h = ground (arith, by_length-IsValid (clean s) i)

trim_start-digit : (c : ℕ) (s : Text) → is_ascii_digit c ≡ true → trim_start (c ∷ s) ≡ c ∷ s
unfolding trim_start is_ascii_digit
trim_start-digit c s h = ground arith

trim_start-IsDigit : (s : Text) → all is_ascii_digit s ≡ true → trim_start s ≡ s
trim_start-IsDigit [] h = unfold trim_start in refl
trim_start-IsDigit (c ∷ s) h = trim_start-digit c s (and_parts (is_ascii_digit c) _ h).0

trim-IsDigit : (s : Text) → all is_ascii_digit s ≡ true → trim s ≡ s
unfolding trim
trim-IsDigit s h =
    rw (trim_start-IsDigit s h)
      (rw (trim_start-IsDigit (reverse s) (all-reverse is_ascii_digit s h)) (reverse-reverse s))

strip_isbn_prefix-IsDigit : (s : Text) → all is_ascii_digit s ≡ true → strip_isbn_prefix s ≡ s
unfolding strip_isbn_prefix is_ascii_digit
strip_isbn_prefix-IsDigit [] h = refl
strip_isbn_prefix-IsDigit (c ∷ s) h = ground arith

keep_significant-IsDigit : (s : Text) → all is_ascii_digit s ≡ true → keep_significant s ≡ s
unfolding keep_significant is_ascii_digit
keep_significant-IsDigit [] h = refl
keep_significant-IsDigit (c ∷ s) h = ground (arith, keep_significant-IsDigit s)

find_bad-IsDigit : (s : Text) → all is_ascii_digit s ≡ true → find_bad s ≡ none
unfolding find_bad
find_bad-IsDigit [] h = refl
find_bad-IsDigit (c ∷ s) h = ground (arith, find_bad-IsDigit s)

clean-IsDigit : (s : Text) → all is_ascii_digit s ≡ true → clean s ≡ s
unfolding clean
clean-IsDigit s h =
    rw (trim-IsDigit s h) (rw (strip_isbn_prefix-IsDigit s h) (keep_significant-IsDigit s h))

parse_cleaned-IsValid :
    (s : Text) → is_valid_isbn13 s ≡ true → parse_cleaned s ≡ ok (record { text = s })
unfolding parse_cleaned by_length
parse_cleaned-IsValid [] h = absurd (omega (arith, (is_valid_isbn13-parts [] h).0))
parse_cleaned-IsValid (c ∷ s) h =
    let (n, d, _) = is_valid_isbn13-parts (c ∷ s) h in ground (arith, find_bad-IsDigit (c ∷ s) d)

-- The canonical form of a parsed ISBN parses to that ISBN.
pub parse-to_string : (s : Text) (i : Isbn) → parse s ≡ ok i → parse i.text ≡ ok i
unfolding parse
parse-to_string s i h =
    let v = parse-IsValid s i h in
    rw (clean-IsDigit i.text (is_valid_isbn13-parts i.text v).1) (parse_cleaned-IsValid i.text v)
