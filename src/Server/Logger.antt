-- ===== src/Server/Logger.antt =====
-- src/server/logger.hpp, logger.cpp and sanitize.hpp: the lines of the log. What strftime writes, the
-- milliseconds, and whether an exception comes up are arguments; a locked section is one step.
pub mod Sanitized
use cppsim.Prelude.{
  ℕ, ◌+◌, ◌-◌, ◌/◌, ◌%◌, Bool, true, false, ◌++◌, [], ◌∷◌, Text, codes, leb, length, take,
  if◌then◌else◌,
}

pub data LogLevel : Type 0 where
  info error : LogLevel

unfoldable pub log_level_to_string : LogLevel → Text
log_level_to_string error = codes "[ERROR]"
log_level_to_string info = codes "[INFO]"

abbrev pub session_id_log_length : ℕ
session_id_log_length = 13

unfoldable pub sanitize_session_id : Text → Text
sanitize_session_id sid =
    if leb (length sid) session_id_log_length
    then sid
    else take session_id_log_length sid ++ codes "..."

abbrev pub timestamp_buffer_size : ℕ
timestamp_buffer_size = 32

-- "%0*d" with the precision 3, of a number below 1000.
unfoldable pub three_digits : ℕ → Text
three_digits n = (b'0' + n / 100) ∷ (b'0' + n / 10 % 10) ∷ (b'0' + n % 10) ∷ []

-- snprintf leaves room for the terminator; no text of strftime is its failure.
unfoldable pub get_timestamp : Text → ℕ → Text
unfolding three_digits
get_timestamp [] ms = take (timestamp_buffer_size - 1) (codes "ts-err." ++ three_digits ms)
get_timestamp (c ∷ date) ms =
    (c ∷ date)
    ++ take (timestamp_buffer_size - length (c ∷ date) - 1) (codes "." ++ three_digits ms)

-- What the two streams have got so far.
pub record Streams : Type 0 where
  pub out : Text
  pub err : Text

abbrev pub max_fallback_msg_size : ℕ
max_fallback_msg_size = 1024

-- Errors go to std::cerr, all else to std::cout.
unfoldable pub write : LogLevel → Text → Streams → Streams
write error line s = record s { err = s.err ++ line }
write info line s = record s { out = s.out ++ line }

-- True is an exception before anything is written, and then the fallback.
unfoldable pub log : Bool → Text → ℕ → LogLevel → Text → Streams → Streams
unfolding log_level_to_string get_timestamp write
log true date ms level msg s = record s {
  err =
      s.err
      ++ codes "[FALLBACK] "
      ++ log_level_to_string level
      ++ codes " "
      ++ take max_fallback_msg_size msg
      ++ codes "\n";
}
log false date ms level msg s =
    write level
      (get_timestamp date ms
        ++ codes " "
        ++ log_level_to_string level
        ++ codes " "
        ++ msg
        ++ codes "\n")
      s

unfoldable pub log_message : Text → ℕ → Text → Streams → Streams
unfolding log
log_message date ms msg s = log false date ms info msg s

unfoldable pub log_error : Text → ℕ → Text → Streams → Streams
unfolding log
log_error date ms msg s = log false date ms error msg s
