-- ===== src/Types/Search/Calendar.antt =====
-- livtet-types/src/search/placeholder.rs: the instants that placeholders stand for, over the
-- operations of `time::OffsetDateTime`.
use livtet.Base.{ℕ, zero, suc, ◌+◌, ◌*◌, Bool, Option, none, some, ◌==◌, if◌then◌else◌}
use livtet.Base.Text.{Text}
use livtet.Base.Int.{ℤ, suc_ℤ}
use livtet.Types.Search.Placeholder.{
  ReservedPlaceholder, now_, today, yesterday, tomorrow, this_week_start, this_week_end,
  last_week_start, this_month_start, this_month_end, last_month_start, last_month_end,
  this_year_start, last_year_start, first_day, last_day, begin, DateUnit, year, month, week, day,
  hour, minute, plus, minus, PlaceholderName, reserved, date_offset, user,
}

-- `time::OffsetDateTime`, as far as the source calls it. Durations are in nanoseconds.
pub record Clock : Type 1 where
  pub Instant : Type 0
  pub epoch : Instant
  pub add : Instant → ℕ → Instant
  pub sub : Instant → ℕ → Instant
  pub midnight : Instant → Instant
  pub is_monday : Instant → Bool
  pub year_of : Instant → ℤ
  pub month_of : Instant → ℕ
  pub replace_day : ℕ → Instant → Option Instant
  pub replace_month : ℕ → Instant → Option Instant
  pub replace_year : ℤ → Instant → Option Instant
  pub rfc3339 : Instant → Option Text
  pub unix_text : Instant → Text

abbrev pub minutes : ℕ → ℕ
minutes n = n * 60000000000

abbrev pub days : ℕ → ℕ
days n = n * 86400000000000

abbrev pub get_or : {A : Type 0} → A → Option A → A
get_or a none = a
get_or a (some b) = b

module _ (clock : Clock) where
  open clock use {
    Instant, epoch, add, sub, midnight, is_monday, year_of, month_of, replace_day, replace_month,
    replace_year,
  }

  unfoldable pub end_of_day : Instant → Instant
  end_of_day t = sub (add (midnight t) (days 1)) 1

  -- the loop of seven rounds
  unfoldable pub back_to_monday : ℕ → Instant → Instant
  back_to_monday zero cursor = cursor
  back_to_monday (suc n) cursor =
      let earlier = back_to_monday n (sub cursor (days 1)) in
      if is_monday cursor then cursor else earlier

  unfoldable pub start_of_week : Instant → Instant
  unfolding back_to_monday
  start_of_week t = back_to_monday 7 (midnight t)

  unfoldable pub end_of_week : Instant → Instant
  unfolding start_of_week
  end_of_week t = sub (add (start_of_week t) (days 7)) 1

  unfoldable pub start_of_month : Instant → Instant
  start_of_month t = midnight (get_or t (replace_day 1 t))

  unfoldable pub start_of_year : Instant → Instant
  start_of_year t = midnight (get_or t (replace_day 1 (get_or t (replace_month 1 t))))

  and_next : Option Instant → (Instant → Option Instant) → Option Instant
  and_next none f = none
  and_next (some t) f = f t

  -- the instant with another year and month, on its first day
  unfoldable pub first_of : ℤ → ℕ → Instant → Instant
  unfolding and_next
  first_of y m t =
      midnight (get_or t (and_next (and_next (replace_year y t) (replace_month m)) (replace_day 1)))

  unfoldable pub advance_month : Instant → Instant
  unfolding first_of
  advance_month t =
      if month_of t == 12
      then first_of (suc_ℤ (year_of t)) 1 t
      else first_of (year_of t) (month_of t + 1) t

  unfoldable pub end_of_month : Instant → Instant
  unfolding advance_month
  end_of_month t = sub (advance_month t) 1

  unfoldable pub render_reserved : ReservedPlaceholder → Instant → Instant
  unfolding end_of_day start_of_week end_of_week start_of_month end_of_month start_of_year
  render_reserved now_ t = t
  render_reserved today t = midnight t
  render_reserved yesterday t = sub (midnight t) (days 1)
  render_reserved tomorrow t = add (midnight t) (days 1)
  render_reserved this_week_start t = start_of_week t
  render_reserved this_week_end t = end_of_week t
  render_reserved last_week_start t = sub (start_of_week t) (days 7)
  render_reserved this_month_start t = start_of_month t
  render_reserved this_month_end t = end_of_month t
  render_reserved last_month_start t = sub (start_of_month t) (days 1)
  render_reserved last_month_end t = sub (end_of_month t) (days 1)
  render_reserved this_year_start t = start_of_year t
  render_reserved last_year_start t = sub (start_of_year t) (days 1)
  render_reserved first_day t = midnight t
  render_reserved last_day t = end_of_day t
  render_reserved begin t = epoch

  unfoldable pub delta : DateUnit → ℕ → ℕ
  delta minute n = minutes n
  delta hour n = minutes (n * 60)
  delta day n = days n
  delta week n = days (n * 7)
  delta month n = days (n * 30)
  delta year n = days (n * 365)

  unfoldable pub render_offset_step : DateUnit → ℕ → Instant → Instant
  unfolding delta
  render_offset_step unit amount t = sub (midnight t) (delta unit amount)

  unfoldable pub render : PlaceholderName → Instant → Instant
  unfolding render_reserved render_offset_step
  render (reserved r) t = render_reserved r t
  render (date_offset unit plus amount) t = render_offset_step unit amount t
  render (date_offset unit minus amount) t = render_offset_step unit amount t
  render (user _) t = t
