-- ===== src/Logging/Tests.antt =====
-- A log that is told to be quiet.
use srnp.Base.{◌≡◌, refl, true, false, [], codes, text_eq}
use srnp.Numbers.{decimal, digits}
use srnp.Logging.{
  LogLevel, name_of_level, find_name, lowered, find_level, Log, SourceLocation, srnp_print_setup,
  line_text, log_line, log_at,
}

abbrev log : Log
log = record { level = LogLevel.info; standard_output = []; standard_error = [] }

loud : srnp_print_setup log (codes "ERROR") ≡ (record log { level = LogLevel.error }, true)
unfolding srnp_print_setup find_level lowered text_eq
loud = refl

unknown : srnp_print_setup log (codes "verbose") ≡ (log, false)
unfolding srnp_print_setup find_level lowered text_eq
unknown = refl

abbrev place : SourceLocation
place = record { file_name = codes "client.cpp"; line = 12 }

quiet : log_at log (codes "now") LogLevel.debug (codes "message") place ≡ log
unfolding log_at
quiet = refl

printed :
    log_at log (codes "now") LogLevel.error (codes "message") place
    ≡ record log { standard_error = codes "[now] (error): message [client.cpp:12]\n" }
unfolding log_at log_line line_text name_of_level find_name decimal digits
printed = refl
