-- ===== src/Wfb/AggQueue/Tests.antt =====
-- A queue of at most four bytes, and the properties at its runs.
use fpvd.Prelude.{◌≡◌, refl, some, List, [], ◌∷◌, arith}
use fpvd.Prelude.Int.{ℤ, pos}
use fpvd.Prelude.Fixed.{milli}
use fpvd.Wfb.AggQueue.{
  AggQueue, join, new, run, step, put, flush, fire, make_room, enqueue, Event, put_event,
  fire_event,
}
use fpvd.Wfb.AggQueue.Contents.{run_contents}
use fpvd.Wfb.AggQueue.Kept.{IsValid}
use fpvd.Wfb.AggQueue.Kept.{Kept, accepted}
use fpvd.Wfb.AggQueue.Timer.{IsArmed, run-IsArmed}

abbrev queue : AggQueue ℤ
queue = new ⦃fl = milli⦄ (some 4) (some (pos 5))

abbrev events : List Event
events =
    put_event (1 ∷ 2 ∷ 3 ∷ [])
    ∷ put_event (4 ∷ 5 ∷ [])
    ∷ put_event (6 ∷ 7 ∷ 8 ∷ 9 ∷ 10 ∷ [])
    ∷ put_event (11 ∷ [])
    ∷ fire_event
    ∷ put_event (12 ∷ [])
    ∷ []

queue-IsValid : IsValid ⦃fl = milli⦄ 4 queue
unfolding milli
queue-IsValid = record {
  sized = refl;
  timed = refl;
  size = refl;
  fits = ground arith;
  batches = tt;
}

sent_by_events : (run ⦃fl = milli⦄ queue events).sent ≡ (1 ∷ 2 ∷ 3 ∷ []) ∷ (4 ∷ 5 ∷ 11 ∷ []) ∷ []
unfolding run step put flush fire make_room enqueue milli
sent_by_events = refl

run_contents_example :
    Kept ⦃fl = milli⦄ 4 queue (run ⦃fl = milli⦄ queue events) (join (accepted 4 events))
run_contents_example = run_contents ⦃fl = milli⦄ 4 queue events queue-IsValid

run-IsArmed_example : IsArmed ⦃fl = milli⦄ (run ⦃fl = milli⦄ queue events)
run-IsArmed_example =
    run-IsArmed ⦃fl = milli⦄ 4 queue events queue-IsValid (record { running = refl; held = refl })
      (ground arith, (ground arith, (ground arith, (ground arith, (ground arith, tt)))))
