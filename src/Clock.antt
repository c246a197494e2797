-- ===== src/Clock.antt =====
-- The functions of Go's package time that the program calls on texts and durations.
use opencoda.Prelude.{Text, Option}
use opencoda.Api.{Time, Duration, Float64}

pub record Clock : Type 0 where
  -- time.ParseDuration
  pub parse_duration : Text → Option Duration
  -- time.Parse and Time.Format with time.RFC3339Nano
  pub parse_time : Text → Option Time
  pub format_time : Time → Text
  -- Duration.Seconds
  pub seconds : Duration → Float64
