-- ===== src/Types/Isbn.antt =====
-- livtet-types/src/isbn.rs: cleaning, validating and canonicalising ISBNs. Texts are code points.
pub mod Checksum
pub mod Canonical
pub mod Tests
use livtet.Base.{
  ℕ, zero, suc, ◌+◌, ◌-◌, ◌*◌, ◌%◌, Bool, true, false, not, ◌&&◌, ◌||◌, Option, none, some, List,
  [], ◌∷◌, ◌++◌, map, ◌==◌, if◌then◌else◌, length, take, drop, all,
}
use livtet.Base.Text.{
  Text, codes, is_empty, is_whitespace, is_ascii_digit, to_ascii_lowercase, trim, strip_prefix,
}
use livtet.Base.Result.{Result, ok, err}

pub record Isbn : Type 0 where
  pub text : Text

pub data IsbnError : Type 0 where
  empty : IsbnError
  invalid_length : ℕ → IsbnError
  invalid_character : ℕ → IsbnError
  invalid_checksum10 : IsbnError
  invalid_checksum13 : IsbnError

-- The loop over `PREFIXES`. A prefix that fits is ASCII, so a byte of it is a character.
strip_first : List Text → Text → Text
unfolding to_ascii_lowercase strip_prefix
strip_first [] s = s
strip_first (prefix ∷ more) s =
    let rest = strip_first more s in
    elim (strip_prefix prefix (map to_ascii_lowercase s)) [
      | none ↦ rest
      | some _ ↦ drop (length prefix) s
    ]

strip_isbn_prefix : Text → Text
unfolding strip_first
strip_isbn_prefix = strip_first (codes "isbn-13:" ∷ codes "isbn-10:" ∷ codes "isbn:" ∷ [])

-- `.filter(|c| !c.is_whitespace() && *c != '-')`
keep_significant : Text → Text
unfolding is_whitespace
keep_significant [] = []
keep_significant (c ∷ s) =
    let rest = keep_significant s in
    if not (is_whitespace c) && not (c == b'-') then c ∷ rest else rest

clean : Text → Text
clean s = keep_significant (strip_isbn_prefix (trim s))

unfoldable pub is_x : ℕ → Bool
is_x c = c == b'X' || c == b'x'

is_isbn_char : ℕ → Bool
unfolding is_ascii_digit is_x
is_isbn_char c = is_ascii_digit c || is_x c

-- `c.to_digit(10).unwrap_or(0)`
pub digit_value : ℕ → ℕ
unfolding is_ascii_digit
digit_value c = if is_ascii_digit c then c - b'0' else 0

-- `digit * (10 - i)` summed over the characters from index `i` on
pub sum10 : ℕ → Text → ℕ
unfolding digit_value
sum10 i [] = 0
sum10 i (c ∷ s) = digit_value c * (10 - i) + sum10 (i + 1) s

abbrev pub weight13 : ℕ → ℕ
weight13 i = if i % 2 == 0 then 1 else 3

-- `digit * weight` summed over the characters from index `i` on
pub sum13 : ℕ → Text → ℕ
unfolding digit_value
sum13 i [] = 0
sum13 i (c ∷ s) = digit_value c * weight13 i + sum13 (i + 1) s

last_value : ℕ → ℕ
unfolding is_x digit_value
last_value c = if is_x c then 10 else digit_value c

-- what follows the test of the length, with `chars[9]` as the head of the rest
check10 : Text → Text → Bool
unfolding is_ascii_digit is_x sum10 last_value
check10 first [] = false
check10 first (last ∷ _) =
    all is_ascii_digit first
    && (is_ascii_digit last || is_x last)
    && (sum10 0 first + last_value last) % 11 == 0

pub is_valid_isbn10 : Text → Bool
unfolding check10
is_valid_isbn10 s = length s == 10 && check10 (take 9 s) (drop 9 s)

pub is_valid_isbn13 : Text → Bool
unfolding is_ascii_digit sum13
is_valid_isbn13 s = length s == 13 && all is_ascii_digit s && sum13 0 s % 10 == 0

pub isbn13_check_digit : Text → ℕ
unfolding sum13
isbn13_check_digit twelve = b'0' + (10 - sum13 0 twelve % 10) % 10

pub upgrade_isbn10_to_13 : Text → Text
unfolding isbn13_check_digit
upgrade_isbn10_to_13 isbn10 =
    let twelve = codes "978" ++ take 9 isbn10 in twelve ++ isbn13_check_digit twelve ∷ []

-- `.find(|c| !is_isbn_char(*c))`
find_bad : Text → Option ℕ
unfolding is_isbn_char
find_bad [] = none
find_bad (c ∷ s) = let rest = find_bad s in if is_isbn_char c then rest else some c

-- the `match len`
pub by_length : Text → Result IsbnError Isbn
by_length cleaned =
    if length cleaned == 10
    then (if not (is_valid_isbn10 cleaned)
        then err invalid_checksum10
        else ok (record { text = upgrade_isbn10_to_13 cleaned }))
    else if length cleaned == 13
    then (if not (is_valid_isbn13 cleaned)
        then err invalid_checksum13
        else ok (record { text = cleaned }))
    else err (invalid_length (length cleaned))

pub parse_cleaned : Text → Result IsbnError Isbn
parse_cleaned cleaned = if is_empty cleaned then err empty else elim (find_bad cleaned) [
  | some bad ↦ err (invalid_character bad)
  | none ↦ by_length cleaned
]

pub parse : Text → Result IsbnError Isbn
parse s = parse_cleaned (clean s)

-- `Display`
abbrev pub to_string : Isbn → Text
to_string i = i.text

unfoldable is_13 : Isbn → Bool
is_13 i = length i.text == 13
