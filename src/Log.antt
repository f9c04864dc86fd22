-- ===== src/Log.antt =====
-- src/log/log.c: the state of the log, and where and how a line is printed. The text of a line, with
-- its time as a floating point number, is not modelled.
use Prim.Native.String.{String}
use freehttpd.Base.{
  ℕ, ◌+◌, ◌-◌, ◌^◌, ◌≤◌, ◌<◌, ◌≡◌, Bool, true, false, ◌&&◌, Option, none, some, if◌then◌else◌, u64,
  arith,
}

-- `enum fh_log_level`
pub data LogLevel : Type 0 where
  log_debug log_info log_warn log_err : LogLevel

-- `start_time` and `supports_color`
pub record Log : Type 0 where
  pub start_time : ℕ
  pub supports_color : Bool

-- `fh_log_refresh`: whether the standard output and the standard error are terminals
unfoldable pub log_refresh : Bool → Bool → Log → Log
log_refresh out_tty err_tty log = record log { supports_color = out_tty && err_tty }

-- `fh_log_init`
unfoldable pub log_init : ℕ → Bool → Bool → Log → Log
unfolding log_refresh
log_init now out_tty err_tty log = log_refresh out_tty err_tty (record log { start_time = now })

unfoldable pub set_color_support : Bool → Log → Log
set_color_support value log = record log { supports_color = value }

unfoldable pub set_start_time : ℕ → Log → Log
set_start_time value log = record log { start_time = value }

-- `log_level_lut`
unfoldable pub level_label : LogLevel → String
level_label log_debug = "debug"
level_label log_info = "info"
level_label log_warn = "warn"
level_label log_err = "error"

-- `log_level_color_lut`
unfoldable pub level_color : LogLevel → String
level_color log_debug = "2"
level_color log_info = "0"
level_color log_warn = "1;33"
level_color log_err = "1;31"

-- the color of the time of a line
unfoldable pub time_color : LogLevel → String
time_color log_debug = "32"
time_color log_info = "32"
time_color log_warn = "33"
time_color log_err = "31"

unfoldable pub is_stderr : LogLevel → Bool
is_stderr log_debug = false
is_stderr log_info = false
is_stderr log_warn = true
is_stderr log_err = true

-- what `fh_log` prints, but for the text: the colors are there where they are supported
pub record Line : Type 0 where
  pub on_stderr : Bool
  pub colors : Option (String × String)
  pub label : String
  pub elapsed : ℕ

unfoldable pub log_line : Log → LogLevel → ℕ → Line
unfolding is_stderr time_color level_color level_label
log_line log level now = record {
  on_stderr = is_stderr level;
  colors = if log.supports_color then some (time_color level, level_color level) else none;
  label = level_label level;
  elapsed = u64 (now + (2 ^ 64 - log.start_time));
}

-- After `fh_log_init`, a line has the time since then, if the clock went on and fits 64 bits.
pub log_init-log_line :
    (log : Log) (start now : ℕ) (out_tty err_tty : Bool) (level : LogLevel)
    → start ≤ now
    → now < 2 ^ 64
    → (log_line (log_init start out_tty err_tty log) level now).elapsed ≡ now - start
unfolding log_line log_init log_refresh
log_init-log_line log start now out_tty err_tty level le small = omega arith
