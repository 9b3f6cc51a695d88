-- ===== src/Wfb/AggQueue/Contents.antt =====
-- What an aggregating queue sends: every accepted byte once, in order, in batches of bounded size.
use fpvd.Prelude.{
  ℕ, ◌+◌, ◌≤◌, ◌≡◌, ◌∙◌, ap, inl, inr, sym, false, ◌&&◌, not, some, List, [], ◌∷◌, ◌++◌, arith, ltb,
  length, length-append, Bool-cases, if_ind,
}
use mathlib.Core.List.{append_assoc, append-nil}
use mathlib.Core.Path.{subst}
use fpvd.Prelude.Float.{Float}
use fpvd.Wfb.AggQueue.{
  Bytes, AggQueue, join, empty, is_set, cancel, send_queue, make_room, enqueue, put, put_sized,
  flush, fire, Event, put_event, flush_event, fire_event, step, run,
}
use fpvd.Wfb.AggQueue.Kept.{
  IsValid, Kept, accepted, accepted_cons, accepted_one, added, cancel-IsValid, cancel-contents,
  contents, empty_size, flush-Kept, join-append, sent_queue-Kept,
}

module _ {F : Type 0} ⦃fl : Float F⦄ where
  -- Room for a message of `n` bytes.
  abbrev Roomed : ℕ → AggQueue F → ℕ → AggQueue F → Type 0
  Roomed limit q n r = Kept limit q r [] × (r.queue_size + n ≤ limit)

  cancel-Kept : (limit : ℕ) (q : AggQueue F) → IsValid limit q → Kept limit q (cancel q) []
  cancel-Kept limit q v = record {
    valid = cancel-IsValid limit q v;
    same = cancel-contents q ∙ sym (append-nil (contents q));
  }

  queue-cancel :
      (q : AggQueue F) → ((cancel q).queue ≡ q.queue) × ((cancel q).queue_size ≡ q.queue_size)
  queue-cancel q = ground arith

  pub make_room-Roomed :
      (limit : ℕ) (q : AggQueue F) (m : Bytes)
      → IsValid limit q
      → length m ≤ limit
      → Roomed limit q (length m) (make_room q limit m)
  unfolding make_room
  make_room-Roomed limit q m v h =
      if_ind (Roomed limit q (length m)) (ltb limit (q.queue_size + length m)) _ q
        (λ _.
          if_ind (Roomed limit q (length m)) (empty (cancel q).queue) (cancel q)
            (send_queue (cancel q))
            (λ e.
              let n = empty_size (cancel q).queue e in
              let c = (cancel-IsValid limit q v).size in
              (cancel-Kept limit q v, omega (arith, n, c, h)))
            (λ _. (sent_queue-Kept limit q v, omega (arith, h))))
        (λ e. (record { valid = v; same = sym (append-nil (contents q)) }, ground (arith, e)))

  enqueue-Kept :
      (limit : ℕ) (q : AggQueue F) (m : Bytes)
      → IsValid limit q
      → q.queue_size + length m ≤ limit
      → Kept limit q (enqueue q m) m
  unfolding enqueue
  enqueue-Kept limit q m v h =
      let bytes : join (q.queue ++ m ∷ []) ≡ join q.queue ++ m =
        join-append q.queue (m ∷ []) ∙ ap (λ b. join q.queue ++ b) (append-nil m) in
      let size : q.queue_size + length m ≡ length (join (q.queue ++ m ∷ [])) =
        rw bytes (omega (arith, v.size, length-append (join q.queue) m)) in
      let same : join q.sent ++ join (q.queue ++ m ∷ []) ≡ contents q ++ m =
        ap (λ b. join q.sent ++ b) bytes ∙ sym (append_assoc (join q.sent) (join q.queue) m) in
      if_ind (λ r. Kept limit q r m) (is_set q.timeout_s && not q.timer) _ _
        (λ _. record {
          valid = record {
            sized = v.sized;
            timed = v.timed;
            size = size;
            fits = h;
            batches = v.batches;
          };
          same = same;
        })
        (λ _. record {
          valid = record {
            sized = v.sized;
            timed = v.timed;
            size = size;
            fits = h;
            batches = v.batches;
          };
          same = same;
        })

  put_sized-Kept :
      (limit : ℕ) (q : AggQueue F) (m : Bytes)
      → IsValid limit q
      → Kept limit q (put_sized (some limit) q m) (added limit m)
  put_sized-Kept limit q m v =
      let timed : not (is_set q.timeout_s) ≡ false = ap not v.timed in
      elim (Bool-cases (ltb limit (length m))) [
        | inl big ↦ rw (timed, big) (record { valid = v; same = sym (append-nil (contents q)) })
        | inr ok ↦
            let room = make_room-Roomed limit q m v (ground (arith, ok)) in
            let k = enqueue-Kept limit (make_room q limit m) m room.0.valid room.1 in
            rw (timed, ok)
              (record {
                valid = k.valid;
                same = k.same ∙ ap (λ b. b ++ m) (room.0.same ∙ append-nil (contents q));
              })
      ]

  pub step-Kept :
      (limit : ℕ) (q : AggQueue F) (e : Event)
      → IsValid limit q
      → Kept limit q (step q e) (join (accepted limit (e ∷ [])))
  unfolding step put fire
  step-Kept limit q (put_event m) v =
      let k = put_sized-Kept limit q m v in
      subst (λ o. Kept limit q (put_sized o q m) (join (accepted limit (put_event m ∷ []))))
        (sym v.sized)
        (record {
          valid = k.valid;
          same = k.same ∙ ap (λ b. contents q ++ b) (accepted_one limit m);
        })
  step-Kept limit q flush_event v = flush-Kept limit q v
  step-Kept limit q fire_event v =
      if_ind (λ r. Kept limit q r []) q.scheduled (flush (record q { scheduled = false })) q
        (λ _.
          let k =
            flush-Kept limit (record q { scheduled = false })
              (record {
                sized = v.sized;
                timed = v.timed;
                size = v.size;
                fits = v.fits;
                batches = v.batches;
              }) in
          record { valid = k.valid; same = k.same })
        (λ _. record { valid = v; same = sym (append-nil (contents q)) })

  -- Whatever puts, flushes and timer calls a valid aggregating queue meets, it stays valid, so no
  -- batch is over the limit, and the batches sent and the messages still queued hold what they
  -- held before and then the bytes of the messages that are not over the limit, each once and in
  -- order.
  pub run_contents :
      (limit : ℕ) (q : AggQueue F) (es : List Event)
      → IsValid limit q
      → Kept limit q (run q es) (join (accepted limit es))
  unfolding run
  run_contents limit q [] v = record { valid = v; same = sym (append-nil (contents q)) }
  run_contents limit q (e ∷ es) v =
      let k = step-Kept limit q e v in
      let r = run_contents limit (step q e) es k.valid in
      record {
        valid = r.valid;
        same =
            r.same
            ∙ (ap (λ b. b ++ join (accepted limit es)) k.same
                ∙ (append_assoc (contents q) (join (accepted limit (e ∷ [])))
                      (join (accepted limit es))
                    ∙ ap (λ b. contents q ++ b) (accepted_cons limit e es)));
      }
