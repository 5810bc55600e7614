-- ===== src/Logging/Levels.antt =====
-- src/srnp_print.cpp: the names of the levels, and what a level lets through.
use srnp.Base.{◌≡◌, refl, ◌∙◌, ap, Bool, true, false, ltb, none, some, Text, text_eq, if◌then◌else◌}
use srnp.Logging.{
  LogLevel, rank, level_names, name_of_level, find_name, lowered, find_level, Log, SourceLocation,
  srnp_print_setup, log_line, log_at,
}

find_level-name_of_level :
    (level : LogLevel) → find_level level_names (name_of_level level) ≡ some level
unfolding find_level name_of_level find_name text_eq
find_level-name_of_level LogLevel.trace = refl
find_level-name_of_level LogLevel.debug = refl
find_level-name_of_level LogLevel.info = refl
find_level-name_of_level LogLevel.warning = refl
find_level-name_of_level LogLevel.error = refl
find_level-name_of_level LogLevel.fatal = refl
find_level-name_of_level LogLevel.off = refl

-- A level's name in any case is taken, and from then on exactly the messages of that level and above
-- are printed.
pub log_at-srnp_print_setup :
    (log : Log) (name : Text) (threshold : LogLevel)
    → (now : Text) (level : LogLevel) (message : Text) (place : SourceLocation)
    → lowered name ≡ name_of_level threshold
    → (srnp_print_setup log name ≡ (record log { level = threshold }, true))
      × (log_at (srnp_print_setup log name).0 now level message place ≡ (
          if ltb (rank level) (rank threshold)
          then record log { level = threshold }
          else log_line (record log { level = threshold }) now level message place))
unfolding srnp_print_setup log_at
log_at-srnp_print_setup log name threshold now level message place named =
    let found : find_level level_names (lowered name) ≡ some threshold =
      ap (find_level level_names) named ∙ find_level-name_of_level threshold in
    let taken : srnp_print_setup log name ≡ (record log { level = threshold }, true) =
      ap
        (λ o. elim o as (λ x. Log × Bool) [
          | none ↦ (log, false)
          | some value ↦ (record log { level = value }, true)
        ])
        found in
    (taken, ap (λ r. log_at r.0 now level message place) taken)
