-- ===== src/Protocol/ErrorLog.antt =====
-- The error log of src/common/protocol.cpp: a function that the program may replace. `S` is what the
-- function may change, `none` as its answer an exception, and an absent function the empty
-- std::function. A message has no zero byte, at which fprintf would stop.
use cppsim.Prelude.{◌++◌, Option, none, some, Text, codes, take, ◌^◌, ◌-◌}

abbrev pub Logger : Type 0 → Type 0
Logger S = Text → S → Option S

-- What is written to stderr, with the largest int as the width.
unfoldable pub default_logger : {S : Type 0} → (Text → S → S) → Logger S
default_logger to_stderr msg s = some (to_stderr (take (2 ^ 31 - 1) msg ++ codes "\n") s)

unfoldable pub set_error_logger :
    {S : Type 0} → Option (Logger S) → Option (Logger S) → Option (Logger S)
set_error_logger logger old = logger

-- The end of the call: an exception is answered on stderr.
unfoldable pub after_logger : {S : Type 0} → (Text → S → S) → Text → S → Option S → S
after_logger to_stderr msg s none =
    to_stderr (codes "[Protocol Error] " ++ (take 1024 msg ++ codes "\n")) s
after_logger to_stderr msg s (some s') = s'

unfoldable pub log_protocol_error : {S : Type 0} → (Text → S → S) → Option (Logger S) → Text → S → S
unfolding after_logger
log_protocol_error to_stderr none msg s = s
log_protocol_error to_stderr (some logger) msg s = after_logger to_stderr msg s (logger msg s)
