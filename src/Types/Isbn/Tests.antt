-- ===== src/Types/Isbn/Tests.antt =====
-- The examples of isbn.rs, and the theorems at concrete inputs.
use livtet.Base.{◌≡◌, refl, true, false, [], ◌∷◌, ◌++◌, arith}
use livtet.Base.Text.{Text, codes, trim}
use livtet.Base.Result.{ok, err}
use livtet.Types.Isbn.{
  parse, parse_cleaned, clean, strip_isbn_prefix, keep_significant, find_bad, by_length,
  is_valid_isbn10, is_valid_isbn13, upgrade_isbn10_to_13, empty, invalid_length, invalid_character,
  invalid_checksum10, invalid_checksum13, Isbn,
}
use livtet.Types.Isbn.Checksum.{is_valid_isbn13-upgrade_isbn10_to_13, one_digit13}
use livtet.Types.Isbn.Canonical.{parse-to_string}

pub parse_isbn10 :
    parse (codes "ISBN-10: 0-306-40615-2") ≡ ok (record { text = codes "9780306406157" })
unfolding parse parse_cleaned clean trim strip_isbn_prefix keep_significant find_bad by_length
    is_valid_isbn10 is_valid_isbn13 upgrade_isbn10_to_13
parse_isbn10 = refl

parse_isbn10_x : parse (codes "0-201-61622-x") ≡ ok (record { text = codes "9780201616224" })
unfolding parse parse_cleaned clean trim strip_isbn_prefix keep_significant find_bad by_length
    is_valid_isbn10 is_valid_isbn13 upgrade_isbn10_to_13
parse_isbn10_x = refl

parse_errors :
    (parse (codes "   ") ≡ err empty)
    × (parse (codes "123") ≡ err (invalid_length 3))
    × (parse (codes "978-ABC-DEFGHI-J") ≡ err (invalid_character b'A'))
    × (parse (codes "X123456789") ≡ err invalid_checksum10)
    × (parse (codes "978-0-06-112008-0") ≡ err invalid_checksum13)
unfolding parse parse_cleaned clean trim strip_isbn_prefix keep_significant find_bad by_length
    is_valid_isbn10 is_valid_isbn13 upgrade_isbn10_to_13
parse_errors = (refl, refl, refl, refl, refl)

is_valid_isbn13-upgrade_isbn10_to_13_example :
    is_valid_isbn13 (upgrade_isbn10_to_13 (codes "0306406152")) ≡ true
is_valid_isbn13-upgrade_isbn10_to_13_example =
    is_valid_isbn13-upgrade_isbn10_to_13 (codes "0306406152") (unfold is_valid_isbn10 in refl)

abbrev pub hyphened : Text
hyphened = codes "ISBN-10: 0-306-40615-2"

abbrev pub canonical : Isbn
canonical = record { text = codes "9780306406157" }

parse-to_string_example : parse canonical.text ≡ ok canonical
parse-to_string_example = parse-to_string hyphened canonical parse_isbn10

one_digit13_example : is_valid_isbn13 (codes "978030640615" ++ b'8' ∷ []) ≡ false
one_digit13_example =
    one_digit13 (codes "978030640615") [] b'7' b'8' (unfold is_valid_isbn13 in refl)
      (λ e. omega (arith, e))
