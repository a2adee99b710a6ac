-- ===== src/Server/Session/Delivery/Strand.antt =====
-- What the strand runs after a handler: what was pending, and what the handler has posted.
use cppsim.Prelude.{
  ℕ, ap, ltb, length-append, Bool, ◌<◌, ◌≡◌, true, false, List, [], ◌∷◌, ◌++◌, Text, length, ◌∙◌,
  arith, if◌then◌else◌,
}
use cppsim.Server.Session.State.{World, async_write, is_closed}
use cppsim.Server.Session.Output.{do_write}
use cppsim.Server.Session.Delivery.{
  sent, run_posted, goes_on, finish_writes, closing_with, Delivered, finish_writes_lem, append_next,
  do_write-begins,
}

-- What a session waits for at a moment: nothing, the do_write that was posted, or the end of a write.
pub data Pipeline : Type 0 where
  silent posted under_way : Pipeline

abbrev pub is_busy : Pipeline → Bool
is_busy silent = false
is_busy posted = true
is_busy under_way = true

-- The writes that follow if one has begun.
unfoldable pub write_on : (ℕ → ℕ) → ℕ → World → World → World
write_on bytes n v w = if goes_on v w then finish_writes bytes n w else w

-- After a handler between these worlds: what was pending before it ends well, and then what the
-- handler has posted, with all writes that follow, at most n.
unfoldable pub let_out : (ℕ → ℕ) → ℕ → Pipeline → World → World → World
let_out bytes n silent before after = write_on bytes n before (run_posted before after)
let_out bytes n posted before after = write_on bytes n before (do_write after)
let_out bytes n under_way before after = finish_writes bytes n after

-- do_write with a queue and the writes that follow it.
queued_writes :
    (bytes : ℕ → ℕ) (n : ℕ) (t : Text) (ts : List Text) (w u : World)
    → is_closed u.session.state ≡ false
    → u.session.close_initiated ≡ false
    → sent u.effects ≡ sent w.effects
    → length ts < n
    → Delivered (t ∷ ts) w (write_on bytes n w (do_write (closing_with (t ∷ ts) u)))
unfolding write_on goes_on
queued_writes bytes n t ts w u o fresh e h =
    let v : World = record u { effects = async_write t ∷ u.effects } in
    let f : sent v.effects ≡ sent w.effects ++ t ∷ [] =
      unfold sent in ap (λ (xs : List Text). xs ++ t ∷ []) e in
    let begun : ltb (length (sent w.effects)) (length (sent w.effects ++ t ∷ [])) ≡ true =
      ground (arith, length-append (sent w.effects) (t ∷ [])) in
    let d = finish_writes_lem bytes n ts v fresh o h in
    rw (do_write-begins t ts u o, f, begun)
      (record {
        state = d.state;
        queue = d.queue;
        output = d.output ∙ ap (λ (xs : List Text). xs ++ ts) f ∙ append_next (sent w.effects) t ts;
      })

-- The same with one message more behind the queue.
pub answered_writes :
    (bytes : ℕ → ℕ) (n : ℕ) (t : Text) (q : List Text) (w u : World)
    → is_closed u.session.state ≡ false
    → u.session.close_initiated ≡ false
    → sent u.effects ≡ sent w.effects
    → length q < n
    → Delivered (q ++ t ∷ []) w (write_on bytes n w (do_write (closing_with (q ++ t ∷ []) u)))
answered_writes bytes n t [] w u o fresh e h =
    queued_writes bytes n t [] w u o fresh e (omega arith)
answered_writes bytes n t (x ∷ xs) w u o fresh e h =
    queued_writes bytes n x (xs ++ t ∷ []) w u o fresh e (ground (arith, length-append xs (t ∷ [])))
