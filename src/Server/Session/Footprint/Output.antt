-- ===== src/Server/Session/Footprint/Output.antt =====
-- Sending, writing and closing take at most the session's own id from the registry.
use cppsim.Prelude.{
  ℕ, ◌≡◌, refl, Bool, true, false, ◌||◌, List, [], ◌∷◌, Option, none, some, Text, if_intro, arith,
}
use cppsim.Json.{Floats, JsonLib}
use cppsim.Server.Session.State.{
  State, authenticated, unauthenticated, closed, World, is_closed, emit, cancel_timer, tcp_close,
  async_close,
}
use cppsim.Server.Session.Output.{
  queue_message, finish_close, do_close, close, do_write, write_next, write_done, on_write,
  on_close, count_error, queue_error, send_protocol_error, refuse,
}
use cppsim.Server.Session.Invariant.Output.{queue_message-same}
use cppsim.Server.Session.Footprint.{
  Minds, quiet, shut, Minds-refl, Minds-trans, emit-Minds, unregister-Minds,
}

finish_close-Minds :
    (s : State) (w : World) → is_closed w.session.state ≡ true → Minds w (finish_close s w)
unfolding finish_close
finish_close-Minds unauthenticated w e = Minds-trans (emit-Minds cancel_timer w) (
    Minds-trans (unregister-Minds (emit cancel_timer w) (unfold emit in e))
      (emit-Minds tcp_close _))
finish_close-Minds authenticated w e = Minds-trans (emit-Minds cancel_timer w) (
    Minds-trans (unregister-Minds (emit cancel_timer w) (unfold emit in e))
      (emit-Minds async_close _))
finish_close-Minds closed w e = Minds-refl w

pub do_close-Minds : (w : World) → Minds w (do_close w)
unfolding do_close
do_close-Minds w =
    if_intro (Minds w) w.session.close_initiated (λ _. Minds-refl w)
      (λ _. Minds-trans (shut refl refl refl refl) (finish_close-Minds w.session.state _ refl))

pub close-Minds : (w : World) → Minds w (close w)
unfolding close
close-Minds w =
    let asked : Minds w (record w { session = record (w.session) { close_requested = true } }) =
      quiet refl refl refl refl (λ _. ground arith) in
    if_intro (Minds w) (is_closed w.session.state || w.session.writing) (λ _. asked)
      (λ _. Minds-trans asked (do_close-Minds _))

write_done-Minds : (q : List Text) (w : World) → Minds w (write_done q w)
unfolding write_done
write_done-Minds [] w =
    let stopped : Minds w (record w { session = record (w.session) { writing = false } }) =
      quiet refl refl refl refl (λ e. e) in
    if_intro (Minds w) w.session.close_requested (λ _. Minds-trans stopped (do_close-Minds _))
      (λ _. stopped)
write_done-Minds (t ∷ ts) w = quiet refl refl refl refl (λ e. e)

pub on_write-Minds : (b : Bool) (n : ℕ) (w : World) → Minds w (on_write b n w)
unfolding on_write
on_write-Minds true n w =
    Minds-trans (quiet refl refl refl refl (λ _. ground arith)) (do_close-Minds _)
on_write-Minds false n w =
    Minds-trans (quiet refl refl refl refl (λ e. e)) (write_done-Minds w.session.write_queue _)

write_next-Minds : (q : List Text) (w : World) → Minds w (write_next q w)
unfolding write_next
write_next-Minds [] w = quiet refl refl refl refl (λ e. e)
write_next-Minds (t ∷ ts) w = quiet refl refl refl refl (λ e. e)

pub do_write-Minds : (w : World) → Minds w (do_write w)
unfolding do_write
do_write-Minds w =
    if_intro (Minds w) (is_closed w.session.state) (λ _. quiet refl refl refl refl (λ e. e))
      (λ _. write_next-Minds w.session.write_queue w)

pub on_close-Minds : (b : Bool) (w : World) → Minds w (on_close b w)
unfolding on_close
on_close-Minds true w = quiet refl refl refl refl (λ e. e)
on_close-Minds false w = Minds-refl w

pub queue_message-Minds : (t : Text) (w : World) → Minds w (queue_message t w).0
queue_message-Minds t w =
    let same = queue_message-same t w in
    quiet same.session_id same.manager (unfold queue_message in ground arith) same.state
      (λ e. rw (same.state, same.close_requested) e)

module _ {F : Floats} (L : JsonLib F) where
  count_error-Minds : (v : World) (r : World × Bool) → Minds v r.0 → Minds v (count_error L r)
  unfolding count_error
  count_error-Minds v (w, true) h = h
  count_error-Minds v (w, false) h = Minds-trans h (quiet refl refl refl refl (λ e. e))

  queue_error-Minds : (o : Option Text) (w : World) → Minds w (queue_error L o w)
  unfolding queue_error
  queue_error-Minds none w = Minds-refl w
  queue_error-Minds (some t) w = count_error-Minds w (queue_message t w) (queue_message-Minds t w)

  pub refuse-Minds : (code message : Text) (w : World) → Minds w (refuse L code message w)
  unfolding refuse send_protocol_error
  refuse-Minds code message w = Minds-trans (queue_error-Minds _ w) (close-Minds _)
