-- ===== src/Ws/Heartbeat.antt =====
-- internal/ws/heartbeat.go. A time is its nanoseconds, and `nowFn` is an argument of each function. A
-- difference of times that is negative counts as 0, which is below every interval.
use sys_escape.Prelude.{ℕ, ◌-◌, ◌*◌, Bool, ltb, leb, if◌then◌else◌}
use sys_escape.Prelude.Int.{ℤ, pos, pos_part, leb_ℤ}

abbrev pub default_ping_interval : ℕ
default_ping_interval = 25 * 1000000000

abbrev pub default_pong_timeout : ℕ
default_pong_timeout = 75 * 1000000000

pub record Heartbeat : Type 0 where
  pub ping_interval : ℕ
  pub pong_timeout : ℕ
  pub last_pong_at : ℕ

unfoldable pub new_heartbeat : ℕ → ℤ → ℤ → Heartbeat
new_heartbeat now ping_interval pong_timeout = record {
  ping_interval =
      if leb_ℤ ping_interval (pos 0) then default_ping_interval else pos_part ping_interval;
  pong_timeout = if leb_ℤ pong_timeout (pos 0) then default_pong_timeout else pos_part pong_timeout;
  last_pong_at = now;
}

unfoldable pub record_pong : ℕ → Heartbeat → Heartbeat
record_pong now h = record h { last_pong_at = now }

unfoldable pub ping_due : ℕ → Heartbeat → ℕ → Bool
ping_due now h last_ping_at = leb h.ping_interval (now - last_ping_at)

unfoldable pub heartbeat_timed_out : ℕ → Heartbeat → Bool
heartbeat_timed_out now h = ltb h.pong_timeout (now - h.last_pong_at)
