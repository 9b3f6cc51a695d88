-- ===== src/Wfb/AggQueue/Timer.antt =====
-- The flush timer of an aggregating queue.
use fpvd.Prelude.{
  ℕ, ◌<◌, ◌≡◌, sym, true, false, not, some, List, [], ◌∷◌, arith, ltb, length, Bool-cases, inl, inr,
  ap,
}
use mathlib.Core.Path.{subst}
use fpvd.Prelude.Float.{Float}
use fpvd.Wfb.AggQueue.{
  Bytes, AggQueue, is_set, make_room, enqueue, put, put_sized, flush, fire, Event, put_event,
  flush_event, fire_event, step, run,
}
use fpvd.Wfb.AggQueue.Contents.{step-Kept, make_room-Roomed}
use fpvd.Wfb.AggQueue.Kept.{IsValid}
use fpvd.Wfb.AggQueue.Kept.{empty_size}

-- Every message has a byte.
abbrev pub Filled : List Event → Type 0
Filled [] = Unit
Filled (put_event m ∷ es) = (0 < length m) × Filled es
Filled (_ ∷ es) = Filled es

module _ {F : Type 0} ⦃fl : Float F⦄ where
  -- The timer runs exactly while there is something to send.
  pub record IsArmed (q : AggQueue F) : Type 0 where
    pub running : q.timer ≡ ltb 0 q.queue_size
    pub held : q.scheduled ≡ q.timer

  make_room-IsArmed :
      (limit : ℕ) (q : AggQueue F) (m : Bytes)
      → IsValid limit q
      → IsArmed q
      → IsArmed (make_room q limit m)
  unfolding make_room
  make_room-IsArmed limit q m v a =
      let e = empty_size q.queue in
      record {
        running = ground (arith, e, v.size, a.running, a.held);
        held = ground (arith, e, v.size, a.running, a.held);
      }

  enqueue-IsArmed :
      (q : AggQueue F) (m : Bytes)
      → is_set q.timeout_s ≡ true
      → 0 < length m
      → IsArmed q
      → IsArmed (enqueue q m)
  unfolding enqueue
  enqueue-IsArmed q m t h a = record {
    running = ground (arith, t, h, a.running, a.held);
    held = ground (arith, t, h, a.running, a.held);
  }

  flush-IsArmed : (q : AggQueue F) → IsArmed q → IsArmed (flush q)
  unfolding flush
  flush-IsArmed q a = record {
    running = ground (arith, a.running, a.held);
    held = ground (arith, a.running, a.held);
  }

  fire-IsArmed : (q : AggQueue F) → IsArmed q → IsArmed (fire q)
  unfolding fire flush
  fire-IsArmed q a = record {
    running = ground (arith, a.running, a.held);
    held = ground (arith, a.running, a.held);
  }

  put_sized-IsArmed :
      (limit : ℕ) (q : AggQueue F) (m : Bytes)
      → IsValid limit q
      → 0 < length m
      → IsArmed q
      → IsArmed (put_sized (some limit) q m)
  put_sized-IsArmed limit q m v h a =
      let timed : not (is_set q.timeout_s) ≡ false = ap not v.timed in
      elim (Bool-cases (ltb limit (length m))) [
        | inl big ↦ rw (timed, big) a
        | inr ok ↦
            let r = make_room-Roomed limit q m v (ground (arith, ok)) in
            rw (timed, ok)
              (enqueue-IsArmed (make_room q limit m) m r.0.valid.timed h
                (make_room-IsArmed limit q m v a))
      ]

  -- With messages that have a byte, the timer of a valid aggregating queue keeps running exactly
  -- while bytes are queued, and the event loop holds its call: what is queued is not forgotten.
  pub run-IsArmed :
      (limit : ℕ) (q : AggQueue F) (es : List Event)
      → IsValid limit q
      → IsArmed q
      → Filled es
      → IsArmed (run q es)
  unfolding run step put
  run-IsArmed limit q [] v a f = a
  run-IsArmed limit q (put_event m ∷ es) v a f =
      run-IsArmed limit (step q (put_event m)) es (step-Kept limit q (put_event m) v).valid
        (subst (λ o. IsArmed (put_sized o q m)) (sym v.sized) (put_sized-IsArmed limit q m v f.0 a))
        f.1
  run-IsArmed limit q (flush_event ∷ es) v a f =
      run-IsArmed limit (flush q) es (step-Kept limit q flush_event v).valid (flush-IsArmed q a) f
  run-IsArmed limit q (fire_event ∷ es) v a f =
      run-IsArmed limit (fire q) es (step-Kept limit q fire_event v).valid (fire-IsArmed q a) f
