-- ===== src/Api/Text.antt =====
-- How Go's `time`, `strconv` and `fmt` print and read the values that the program stores as text.
-- The printers and readers are a parameter; `TextLaws` states what the program relies on.
use homelab_autoscaler.Prelude.{ℕ, ◌*◌, ◌-◌, ◌%◌, ◌<◌, ◌^◌, String, ◌≡◌, ◌≢◌, Option, some}
use homelab_autoscaler.Prelude.Int.{ℤ, pos}

pub record Texts : Type 0 where
  -- `t.Format(time.RFC3339)` and `time.Parse(time.RFC3339, s)`
  pub format_time : ℕ → String
  pub parse_time : String → Option ℕ
  -- `strconv.FormatFloat(d.Seconds(), 'f', 0, 64)`, and `strconv.ParseFloat(s, 64)` as an int64
  pub format_seconds : ℤ → String
  pub parse_seconds : String → Option ℤ
  -- `%d`
  pub decimal : ℕ → String

-- RFC 3339 keeps whole seconds; a whole number of seconds below 2^53 survives as a float.
pub record TextLaws (t : Texts) : Type 0 where
  pub time_round_trip : (n : ℕ) → t.parse_time (t.format_time n) ≡ some (n - n % 1_000_000_000)
  pub time_not_empty : (n : ℕ) → t.format_time n ≢ ""
  pub seconds_round_trip :
      (n : ℕ)
      → n < 2 ^ 53
      → t.parse_seconds (t.format_seconds (pos (n * 1_000_000_000))) ≡ some (pos n)
  pub seconds_not_empty : (d : ℤ) → t.format_seconds d ≢ ""
