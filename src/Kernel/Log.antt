-- ===== src/Kernel/Log.antt =====
-- The levels of the kernel's log, `kernel/log.rs`. Its two atomics are the state; a line that is printed is
-- given back.
pub mod Levels
use theos.Base.{ℕ, List, [], ◌∷◌, ◌++◌, Bool, true, false, ◌||◌, Option, none, some}
use theos.Base.{leb, if◌then◌else◌}
use theos.Base.Text.{Bytes, codes}
use theos.Kernel.Cmdline.{KernelParams}

pub data Level : Type 0 where
  error warn info debug trace : Level

-- `level as u8`
abbrev pub as_u8 : Level → ℕ
as_u8 error = 1
as_u8 warn = 2
as_u8 info = 3
as_u8 debug = 4
as_u8 trace = 5

abbrev pub as_str : Level → Bytes
as_str error = codes "ERROR"
as_str warn = codes "WARN"
as_str info = codes "INFO"
as_str debug = codes "DEBUG"
as_str trace = codes "TRACE"

unfoldable pub from_linux_console_level : ℕ → Level
from_linux_console_level level =
    if leb level 3
    then error
    else (if leb level 4 then warn else (if leb level 6 then info else debug))

-- `CONSOLE_LEVEL` and `TRACE_ENABLED`.
pub record Log : Type 0 where
  pub console_level : ℕ
  pub trace_enabled : Bool

-- What the statics are before `init`.
abbrev pub initial : Log
initial = record { console_level = 3; trace_enabled = false }

abbrev pub chosen_level : Option ℕ → Bool → Bool → Level
chosen_level (some level) quiet debug_on = from_linux_console_level level
chosen_level none quiet debug_on = if quiet then warn else (if debug_on then debug else info)

-- `is_some_and(|level| level >= 7)`
abbrev pub at_least_7 : Option ℕ → Bool
at_least_7 none = false
at_least_7 (some level) = leb 7 level

unfoldable pub init : Log → KernelParams → Log
init self params = record {
  console_level = as_u8 (chosen_level params.loglevel params.quiet params.debug);
  trace_enabled = params.debug || at_least_7 params.loglevel;
}

abbrev pub is_trace : Level → Bool
is_trace error = false
is_trace warn = false
is_trace info = false
is_trace debug = false
is_trace trace = true

unfoldable pub enabled : Log → Level → Bool
enabled self level =
    if is_trace level then self.trace_enabled else leb (as_u8 level) self.console_level

-- What is printed of a message.
unfoldable pub log : Log → Level → Bytes → Bytes
log self level message =
    if enabled self level then codes "[" ++ as_str level ++ codes "] " ++ message ++ 10 ∷ [] else []
