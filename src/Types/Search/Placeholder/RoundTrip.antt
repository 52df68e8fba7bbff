-- ===== src/Types/Search/Placeholder/RoundTrip.antt =====
-- A placeholder's name is read back from its printed form.
use livtet.Base.{
  ℕ, zero, suc, ◌+◌, ◌-◌, ◌*◌, ◌/◌, ◌%◌, ◌≤◌, ◌<◌, Bool, true, not, some, [], ◌∷◌, ◌++◌, ◌≡◌, refl,
  sym, ap, ◌∙◌, reverse, ◌==◌, all, all-reverse, Bool-cases, inl, inr, arith, and_intro,
}
use mathlib.Core.List.{reverse-reverse}
use livtet.Base.Text.{
  Text, text_eq, trim, trim_start, is_whitespace, is_ascii_digit, split_once, parse_uint,
  parse_digits,
}
use livtet.Base.Result.{ok}
use livtet.Types.Search.Kinds.{show_nat, digits_onto}
use livtet.Types.Search.Placeholder.{
  ReservedPlaceholder, now_, today, yesterday, tomorrow, this_week_start, this_week_end,
  last_week_start, this_month_start, this_month_end, last_month_start, last_month_end,
  this_year_start, last_year_start, first_day, last_day, begin, DateUnit, year, month, week, day,
  hour, minute, DateOffsetSign, plus, minus, PlaceholderName, reserved, date_offset, user,
  reserved_token, unit_token, sign_token, sign_of, find_token, print_name, offset_of, parse_offset,
  parse_split, parse_token, parse_trimmed, from_str,
}

abbrev power10 : ℕ → ℕ
power10 zero = 1
power10 (suc f) = 10 * power10 f

value : (m d : ℕ) → m * 10 + d ≡ m * 10 + (b'0' + d - b'0')
value m d = omega arith

parse_digits-cons :
    (bound m n d : ℕ) (s : Text)
    → d < 10
    → m * 10 + d ≡ n
    → n ≤ bound
    → parse_digits bound m ((b'0' + d) ∷ s) ≡ parse_digits bound n s
unfolding parse_digits is_ascii_digit
parse_digits-cons bound m n d s h e l = let next = sym (value m d) ∙ e in ground (arith, next)

parse_digits-digits_onto :
    (bound fuel n : ℕ) (done : Text)
    → n < power10 fuel
    → n ≤ bound
    → 0 < n
    → parse_digits bound 0 (digits_onto fuel n done) ≡ parse_digits bound n done
unfolding digits_onto
parse_digits-digits_onto bound zero n done h l p = absurd (omega arith)
parse_digits-digits_onto bound (suc fuel) n done h l p = elim (Bool-cases (n / 10 == 0)) [
  | inl e ↦ rw e (parse_digits-cons bound 0 n (n % 10) done (omega arith) (ground arith) l)
  | inr e ↦ rw e (
      parse_digits-digits_onto bound fuel (n / 10) ((b'0' + n % 10) ∷ done) (omega arith)
        (omega arith) (ground arith)
      ∙ parse_digits-cons bound (n / 10) n (n % 10) done (omega arith) (omega arith) l)
]

-- a text of digits with one at its head
abbrev IsNumber : Text → Type 0
IsNumber [] = ⊥
IsNumber (c ∷ s) = (is_ascii_digit c ≡ true) × (all is_ascii_digit s ≡ true)

digit-IsDigit : (n : ℕ) → is_ascii_digit (b'0' + n % 10) ≡ true
unfolding is_ascii_digit
digit-IsDigit n = ground arith

digits_onto-IsNumber :
    (fuel n : ℕ) (done : Text) → IsNumber done → IsNumber (digits_onto fuel n done)
unfolding digits_onto
digits_onto-IsNumber zero n done h = h
digits_onto-IsNumber (suc fuel) n [] h = absurd h
digits_onto-IsNumber (suc fuel) n (c ∷ s) h =
    let more = and_intro (is_ascii_digit c) (all is_ascii_digit s) h.0 h.1 in
    elim (Bool-cases (n / 10 == 0)) [
      | inl e ↦ rw e ((digit-IsDigit n, more))
      | inr e ↦
          rw e
            (digits_onto-IsNumber fuel (n / 10) ((b'0' + n % 10) ∷ c ∷ s) (digit-IsDigit n, more))
    ]

show_nat-IsNumber : (n : ℕ) → IsNumber (show_nat n)
unfolding show_nat digits_onto
show_nat-IsNumber n = elim (Bool-cases (n / 10 == 0)) [
  | inl e ↦ rw e ((digit-IsDigit n, refl))
  | inr e ↦ rw e (digits_onto-IsNumber 19 (n / 10) ((b'0' + n % 10) ∷ []) (digit-IsDigit n, refl))
]

parse_uint-IsNumber :
    (bound : ℕ) (s : Text) → IsNumber s → parse_uint bound s ≡ parse_digits bound 0 s
unfolding parse_uint is_ascii_digit
parse_uint-IsNumber bound [] h = absurd h
parse_uint-IsNumber bound (c ∷ s) h = ground (arith, h.0)

parse_uint-show_nat :
    (bound n : ℕ)
    → n ≤ bound
    → bound < 100000000000000000000
    → 0 < n
    → parse_uint bound (show_nat n) ≡ some n
unfolding show_nat parse_digits
parse_uint-show_nat bound n h b p =
    parse_uint-IsNumber bound (show_nat n) (show_nat-IsNumber n)
    ∙ parse_digits-digits_onto bound 20 n [] (omega arith) h p

is_black : ℕ → Bool
is_black c = not (is_whitespace c)

trim_start-black : (s : Text) → all is_black s ≡ true → trim_start s ≡ s
unfolding trim_start is_black
trim_start-black [] h = refl
trim_start-black (c ∷ s) h = ground arith

trim-black : (s : Text) → all is_black s ≡ true → trim s ≡ s
unfolding trim
trim-black s h =
    ap (λ (t : Text). reverse (trim_start (reverse t))) (trim_start-black s h)
    ∙ ap reverse (trim_start-black (reverse s) (all-reverse is_black s h))
    ∙ reverse-reverse s

digit-IsBlack : (s : Text) → all is_ascii_digit s ≡ true → all is_black s ≡ true
unfolding is_ascii_digit is_black is_whitespace
digit-IsBlack [] h = refl
digit-IsBlack (c ∷ s) h = ground (arith, digit-IsBlack s)

number-IsBlack : (s : Text) → IsNumber s → all is_black s ≡ true
number-IsBlack [] h = absurd h
number-IsBlack (c ∷ s) h =
    digit-IsBlack (c ∷ s) (and_intro (is_ascii_digit c) (all is_ascii_digit s) h.0 h.1)

offset_text : DateUnit → DateOffsetSign → Text → Text
unfolding unit_token sign_token
offset_text unit sign digits = unit_token unit ++ (b':' ∷ sign_token sign ++ digits)

offset_text-IsBlack :
    (unit : DateUnit) (sign : DateOffsetSign) (digits : Text)
    → all is_black digits ≡ true
    → all is_black (offset_text unit sign digits) ≡ true
unfolding offset_text unit_token sign_token is_black is_whitespace
offset_text-IsBlack year plus digits h = h
offset_text-IsBlack year minus digits h = h
offset_text-IsBlack month plus digits h = h
offset_text-IsBlack month minus digits h = h
offset_text-IsBlack week plus digits h = h
offset_text-IsBlack week minus digits h = h
offset_text-IsBlack day plus digits h = h
offset_text-IsBlack day minus digits h = h
offset_text-IsBlack hour plus digits h = h
offset_text-IsBlack hour minus digits h = h
offset_text-IsBlack minute plus digits h = h
offset_text-IsBlack minute minus digits h = h

parse_offset_text :
    (unit : DateUnit) (sign : DateOffsetSign) (digits : Text)
    → parse_trimmed (offset_text unit sign digits)
      ≡ offset_of unit sign digits (parse_uint 4294967295 digits)
unfolding offset_text unit_token sign_token parse_trimmed parse_token parse_split parse_offset
    find_token reserved_token text_eq split_once sign_of
parse_offset_text year plus digits = refl
parse_offset_text year minus digits = refl
parse_offset_text month plus digits = refl
parse_offset_text month minus digits = refl
parse_offset_text week plus digits = refl
parse_offset_text week minus digits = refl
parse_offset_text day plus digits = refl
parse_offset_text day minus digits = refl
parse_offset_text hour plus digits = refl
parse_offset_text hour minus digits = refl
parse_offset_text minute plus digits = refl
parse_offset_text minute minus digits = refl

from_str-reserved : (r : ReservedPlaceholder) → from_str (reserved_token r) ≡ ok (reserved r)
unfolding from_str trim trim_start is_whitespace parse_trimmed parse_token find_token reserved_token
    text_eq
from_str-reserved now_ = refl
from_str-reserved today = refl
from_str-reserved yesterday = refl
from_str-reserved tomorrow = refl
from_str-reserved this_week_start = refl
from_str-reserved this_week_end = refl
from_str-reserved last_week_start = refl
from_str-reserved this_month_start = refl
from_str-reserved this_month_end = refl
from_str-reserved last_month_start = refl
from_str-reserved last_month_end = refl
from_str-reserved this_year_start = refl
from_str-reserved last_year_start = refl
from_str-reserved first_day = refl
from_str-reserved last_day = refl
from_str-reserved begin = refl

offset_of-positive :
    (unit : DateUnit) (sign : DateOffsetSign) (rest : Text) (n : ℕ)
    → 0 < n
    → offset_of unit sign rest (some n) ≡ ok (date_offset unit sign n)
unfolding offset_of
offset_of-positive unit sign rest n h = ground arith

from_str-offset :
    (unit : DateUnit) (sign : DateOffsetSign) (n : ℕ)
    → 0 < n
    → n < 4294967296
    → from_str (offset_text unit sign (show_nat n)) ≡ ok (date_offset unit sign n)
unfolding from_str
from_str-offset unit sign n p h =
    let digits = show_nat n in
    ap parse_trimmed (
      trim-black (offset_text unit sign digits)
        (offset_text-IsBlack unit sign digits (number-IsBlack digits (show_nat-IsNumber n))))
    ∙ parse_offset_text unit sign digits
    ∙ ap (offset_of unit sign digits)
        (parse_uint-show_nat 4294967295 n (omega arith) (omega arith) p)
    ∙ offset_of-positive unit sign digits n p

-- a reserved name, or an offset by a positive amount of 32 bits
unfoldable pub IsPrintable : PlaceholderName → Type 0
IsPrintable (reserved r) = Unit
IsPrintable (date_offset unit sign amount) = (0 < amount) × (amount < 4294967296)
IsPrintable (user s) = ⊥

-- A reserved name and an offset by a positive amount of 32 bits are read back from their printed
-- form.
pub from_str-print_name :
    (name : PlaceholderName) → IsPrintable name → from_str (print_name name) ≡ ok name
unfolding print_name IsPrintable offset_text
from_str-print_name (reserved r) h = from_str-reserved r
from_str-print_name (date_offset unit sign amount) h = from_str-offset unit sign amount h.0 h.1
from_str-print_name (user s) h = absurd h
