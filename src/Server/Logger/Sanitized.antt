-- ===== src/Server/Logger/Sanitized.antt =====
-- What the log shows of a session id, and how long it is.
use cppsim.Prelude.{
  ℕ, ◌-◌, ◌<◌, ◌++◌, [], ◌∷◌, Text, codes, length, take, arith, length-append, length-take-le,
}
use cppsim.Server.Logger.{get_timestamp, three_digits, timestamp_buffer_size}

-- The time stamp leaves room for the terminator in its buffer, for any text of strftime that does.
get_timestamp_bounded :
    (date : Text) (ms : ℕ)
    → length date < timestamp_buffer_size
    → length (get_timestamp date ms) < timestamp_buffer_size
unfolding get_timestamp
get_timestamp_bounded [] ms h = omega arith
get_timestamp_bounded (c ∷ date) ms h =
    let rest : Text = codes "." ++ three_digits ms in
    let n : ℕ = timestamp_buffer_size - length (c ∷ date) - 1 in
    omega (arith, length-append {0} date (take n rest), length-take-le {0} n rest)
