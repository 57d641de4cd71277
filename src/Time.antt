-- ===== src/Time.antt =====
-- internal/time.go: the clock. A time is a count of nanoseconds after Go's zero time, and each
-- place that reads the clock is given its reading as an argument.
use otf.Prelude.{ℕ, ◌+◌, ◌*◌, ◌/◌, ◌≤◌, Option, none, some, arith}

abbrev pub Time : Type 0
Time = ℕ

abbrev pub millisecond : ℕ
millisecond = 1000000

abbrev pub second : ℕ
second = 1000000000

-- `now.Round(time.Millisecond)`: halves are rounded up.
unfoldable pub round_millisecond : Time → Time
round_millisecond t = (t + 500000) / 1000000 * 1000000

-- `reading` is what `time.Now()` gives, which counts only where `now` is nil.
unfoldable pub current_timestamp : Option Time → Time → Time
unfolding round_millisecond
current_timestamp none reading = round_millisecond reading
current_timestamp (some now) reading = round_millisecond now

pub current_timestamp_mono :
    (s t : Time) → s ≤ t → current_timestamp none s ≤ current_timestamp none t
unfolding current_timestamp
current_timestamp_mono s t h = omega arith
