-- ===== src/Prelude/Clock.antt =====
-- What the program uses of Go's package time. A `time.Time` is the number of nanoseconds since the
-- Unix epoch; a `time.Duration` is an `int64` of nanoseconds. A UTC date, which the program holds as
-- the text of its year, month and day, is the number of days since the epoch.
use Prim.Native.Nat.{ℕ, ◌+◌, ◌*◌, ◌-◌, ◌^◌, compare, Ordering}
use mathlib.Core.Path.{◌≡◌}
use mathlib.Core.Logic.{◌↔◌}
use native.Mathlib.Omega.{arith}
use mathlib.Core.Bool.{Bool, true, false}
use trading_challenge.Prelude.Tests.{if◌then◌else◌}
use trading_challenge.Prelude.Int.{
  ℤ, pos, negsuc, pos_part, neg_part, ◌+ℤ◌, ◌-ℤ◌, ◌*ℤ◌, lt_ℤ, floor_div,
}

abbrev pub Time : Type 0
Time = ℤ

abbrev pub Date : Type 0
Date = ℤ

abbrev pub ns_per_second : ℕ
ns_per_second = 1_000_000_000

abbrev pub ns_per_day : ℕ
ns_per_day = 86_400 * ns_per_second

-- `t.UTC().Format("2006-01-02")`
unfoldable pub utc_date : Time → Date
unfolding floor_div
utc_date t = floor_div t ns_per_day

-- `time.Date(t.Year(), t.Month(), t.Day(), 0, 0, 0, 0, time.UTC)`
unfoldable pub midnight : Time → Time
unfolding utc_date ◌*ℤ◌
midnight t = utc_date t *ℤ pos ns_per_day

-- `t.UnixMilli()`
unfoldable pub unix_milli : Time → ℤ
unfolding floor_div
unix_milli t = floor_div t 1_000_000

-- `t.Add(d)`, `t.After(u)`, `t.Before(u)`
unfoldable pub add_duration : Time → ℤ → Time
unfolding ◌+ℤ◌
add_duration t d = t +ℤ d

-- `t.Sub(u)`, which saturates at the bounds of an `int64`.
unfoldable pub time_sub : Time → Time → ℤ
unfolding ◌-ℤ◌
time_sub t u =
    let d = t -ℤ u in
    let most = pos (2 ^ 63 - 1) in
    let least = negsuc (2 ^ 63 - 1) in
    if lt_ℤ most d then most else if lt_ℤ d least then least else d

abbrev pub after : Time → Time → Bool
after t u = lt_ℤ u t

abbrev pub before : Time → Time → Bool
before t u = lt_ℤ t u

-- Equality of the texts of two dates.
unfoldable pub same_date : Date → Date → Bool
same_date a b = elim (compare (pos_part a + neg_part b) (pos_part b + neg_part a)) [
  | Ordering.eq ↦ true
  | _ ↦ false
]

pub same_date_iff : (a b : Date) → (same_date a b ≡ true) ↔ (a ≡ b)
unfolding same_date
same_date_iff a b = ground arith
