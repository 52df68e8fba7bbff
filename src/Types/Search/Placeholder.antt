-- ===== src/Types/Search/Placeholder.antt =====
-- livtet-types/src/search/placeholder.rs: the names between `$$` and `$$`, and the instants that
-- they stand for.
pub mod RoundTrip
use livtet.Base.{
  ℕ, zero, suc, ◌+◌, ◌-◌, ◌*◌, Bool, true, false, ◌&&◌, ◌||◌, Option, none, some, List, [], ◌∷◌,
  ◌++◌, reverse, ◌==◌, if◌then◌else◌, any,
}
use livtet.Base.Text.{Text, codes, text_eq, trim, is_empty, split_once, strip_prefix, parse_uint}
use livtet.Base.Int.{ℤ, pos, suc_ℤ}
use livtet.Base.Result.{Result, ok, err, ◌>>=◌}
use livtet.Types.Search.Kinds.{show_nat}

pub data ReservedPlaceholder : Type 0 where
  now_ today yesterday tomorrow this_week_start this_week_end last_week_start : ReservedPlaceholder
  this_month_start this_month_end last_month_start last_month_end : ReservedPlaceholder
  this_year_start last_year_start first_day last_day begin : ReservedPlaceholder

-- the token of `#[strum(serialize_all = "snake_case")]`
unfoldable pub reserved_token : ReservedPlaceholder → Text
reserved_token now_ = codes "now"
reserved_token today = codes "today"
reserved_token yesterday = codes "yesterday"
reserved_token tomorrow = codes "tomorrow"
reserved_token this_week_start = codes "this_week_start"
reserved_token this_week_end = codes "this_week_end"
reserved_token last_week_start = codes "last_week_start"
reserved_token this_month_start = codes "this_month_start"
reserved_token this_month_end = codes "this_month_end"
reserved_token last_month_start = codes "last_month_start"
reserved_token last_month_end = codes "last_month_end"
reserved_token this_year_start = codes "this_year_start"
reserved_token last_year_start = codes "last_year_start"
reserved_token first_day = codes "first_day"
reserved_token last_day = codes "last_day"
reserved_token begin = codes "begin"

abbrev pub all_reserved : List ReservedPlaceholder
all_reserved =
    now_ ∷ today ∷ yesterday ∷ tomorrow ∷ this_week_start ∷ this_week_end ∷ last_week_start
    ∷ this_month_start ∷ this_month_end ∷ last_month_start ∷ last_month_end ∷ this_year_start
    ∷ last_year_start ∷ first_day ∷ last_day ∷ begin ∷ []

pub data DateUnit : Type 0 where
  year month week day hour minute : DateUnit

unfoldable pub unit_token : DateUnit → Text
unit_token year = codes "year"
unit_token month = codes "month"
unit_token week = codes "week"
unit_token day = codes "day"
unit_token hour = codes "hour"
unit_token minute = codes "minute"

abbrev pub all_units : List DateUnit
all_units = year ∷ month ∷ week ∷ day ∷ hour ∷ minute ∷ []

-- `FromStr` of strum: the variant whose token is the text
unfoldable pub find_token : {A : Type 0} → (A → Text) → List A → Text → Option A
find_token token [] s = none
find_token token (a ∷ more) s =
    let rest = find_token token more s in if text_eq s (token a) then some a else rest

pub data DateOffsetSign : Type 0 where
  plus minus : DateOffsetSign

unfoldable pub sign_token : DateOffsetSign → Text
sign_token plus = codes "+"
sign_token minus = codes "-"

pub data PlaceholderName : Type 0 where
  reserved : ReservedPlaceholder → PlaceholderName
  date_offset : DateUnit → DateOffsetSign → (amount : ℕ) → PlaceholderName
  user : Text → PlaceholderName

pub data PlaceholderParseError : Type 0 where
  empty missing_delimiters missing_offset_amount zero_offset whitespace_in_name :
      PlaceholderParseError
  unknown_offset_sign : ℕ → PlaceholderParseError
  invalid_offset_amount : Text → PlaceholderParseError

-- `DateOffsetSign::from_token`
unfoldable pub sign_of : ℕ → Result PlaceholderParseError DateOffsetSign
sign_of c =
    if c == b'+' then ok plus else if c == b'-' then ok minus else err (unknown_offset_sign c)

-- `Display`
unfoldable pub print_name : PlaceholderName → Text
unfolding reserved_token unit_token sign_token
print_name (reserved r) = reserved_token r
print_name (date_offset unit sign amount) =
    unit_token unit ++ (b':' ∷ sign_token sign ++ show_nat amount)
print_name (user s) = s

-- `rest.parse::<u32>()` and the test for 0
unfoldable pub offset_of :
    DateUnit → DateOffsetSign → Text → Option ℕ → Result PlaceholderParseError PlaceholderName
offset_of unit sign rest none = err (invalid_offset_amount rest)
offset_of unit sign rest (some amount) =
    if amount == 0 then err zero_offset else ok (date_offset unit sign amount)

unfoldable pub parse_offset : DateUnit → Text → Result PlaceholderParseError PlaceholderName
parse_offset unit [] = err missing_offset_amount
parse_offset unit (c ∷ rest) =
    sign_of c >>= λ sign. offset_of unit sign rest (parse_uint 4294967295 rest)

unfoldable pub parse_user : Text → Result PlaceholderParseError PlaceholderName
parse_user s =
    if any (λ c. c == b' ' || c == 10 || c == 9) s then err whitespace_in_name else ok (user s)

-- on the two sides of a `:`
unfoldable pub parse_split :
    Text → Option (Text × Text) → Result PlaceholderParseError PlaceholderName
parse_split s none = parse_user s
parse_split s (some (unit_part, amount_part)) = elim (find_token unit_token all_units unit_part) [
  | none ↦ parse_user s
  | some unit ↦ parse_offset unit amount_part
]

unfoldable pub parse_token :
    Text → Option ReservedPlaceholder → Result PlaceholderParseError PlaceholderName
parse_token s (some r) = ok (reserved r)
parse_token s none = parse_split s (split_once b':' s)

unfoldable pub parse_trimmed : Text → Result PlaceholderParseError PlaceholderName
parse_trimmed s =
    if is_empty s then err empty else parse_token s (find_token reserved_token all_reserved s)

-- `PlaceholderName::from_str`
unfoldable pub from_str : Text → Result PlaceholderParseError PlaceholderName
from_str s = parse_trimmed (trim s)

-- `.strip_prefix("$$").and_then(|rest| rest.strip_suffix("$$"))`
unfoldable pub inner : Text → Option Text
inner s = elim (strip_prefix (codes "$$") s) [
  | none ↦ none
  | some rest ↦ elim (strip_prefix (codes "$$") (reverse rest)) [
    | none ↦ none
    | some t ↦ some (reverse t)
  ]
]

unfoldable pub parse_inner : Option Text → Result PlaceholderParseError PlaceholderName
parse_inner none = err missing_delimiters
parse_inner (some t) = from_str t

unfoldable pub parse_placeholder : Text → Result PlaceholderParseError PlaceholderName
parse_placeholder s = parse_inner (inner (trim s))
