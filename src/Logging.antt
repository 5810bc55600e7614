-- ===== src/Logging.antt =====
-- include/srnp/srnp_print.h and src/srnp_print.cpp: the level of the log, its names, and the lines. The
-- clock's text is an argument, and so are the file's name, without its folders, and the line in it.
pub mod Levels
mod Tests
use srnp.Base.{
  ℕ, Bool, true, false, ◌==◌, ◌&&◌, leb, ltb, List, [], ◌∷◌, ◌++◌, Option, none, some, Text, codes,
  text_eq, if◌then◌else◌,
}
use srnp.Numbers.{decimal}
use srnp.Viewer.Format.{lower}

pub data LogLevel : Type 0 where
  trace debug info warning error fatal off : LogLevel

-- The order of the enumeration.
abbrev pub rank : LogLevel → ℕ
rank LogLevel.trace = 0
rank LogLevel.debug = 1
rank LogLevel.info = 2
rank LogLevel.warning = 3
rank LogLevel.error = 4
rank LogLevel.fatal = 5
rank LogLevel.off = 6

abbrev pub level_names : List (Text × LogLevel)
level_names =
    (codes "trace", LogLevel.trace)
    ∷ (codes "debug", LogLevel.debug)
    ∷ (codes "info", LogLevel.info)
    ∷ (codes "warning", LogLevel.warning)
    ∷ (codes "error", LogLevel.error)
    ∷ (codes "fatal", LogLevel.fatal)
    ∷ (codes "off", LogLevel.off)
    ∷ []

unfoldable pub find_name : List (Text × LogLevel) → LogLevel → Text
find_name [] level = codes "?"
find_name (entry ∷ entries) level =
    let later = find_name entries level in if rank entry.1 == rank level then entry.0 else later

unfoldable pub name_of_level : LogLevel → Text
name_of_level level = find_name level_names level

unfoldable pub lowered : Text → Text
lowered [] = []
lowered (c ∷ cs) = lower c ∷ lowered cs

unfoldable pub find_level : List (Text × LogLevel) → Text → Option LogLevel
find_level [] name = none
find_level (entry ∷ entries) name =
    let later = find_level entries name in if text_eq entry.0 name then some entry.1 else later

-- `g_level`, and what the two streams of the process have taken.
pub record Log : Type 0 where
  pub level : LogLevel
  pub standard_output : Text
  pub standard_error : Text

pub record SourceLocation : Type 0 where
  pub file_name : Text
  pub line : ℕ

unfoldable pub srnp_print_setup : Log → Text → Log × Bool
srnp_print_setup log level = elim (find_level level_names (lowered level)) [
  | none ↦ (log, false)
  | some value ↦ (record log { level = value }, true)
]

abbrev pub is_severe : LogLevel → Bool
is_severe level = leb (rank LogLevel.warning) (rank level)

unfoldable pub line_text : Text → LogLevel → Text → SourceLocation → Text
line_text now level message place =
    codes "["
    ++ now
    ++ codes "] ("
    ++ name_of_level level
    ++ codes "): "
    ++ message
    ++ (if is_severe level
        then codes " [" ++ place.file_name ++ codes ":" ++ decimal place.line ++ codes "]"
        else [])
    ++ b'\n' ∷ []

unfoldable pub log_line : Log → Text → LogLevel → Text → SourceLocation → Log
log_line log now level message place =
    let line = line_text now level message place in
    if is_severe level
    then record log { standard_error = log.standard_error ++ line }
    else record log { standard_output = log.standard_output ++ line }

unfoldable pub log_at : Log → Text → LogLevel → Text → SourceLocation → Log
log_at log now level message place =
    if ltb (rank level) (rank log.level) then log else log_line log now level message place
