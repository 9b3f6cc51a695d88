-- ===== src/Wfb/AggQueue.antt =====
-- gs/fpvdgs/wfb/agg_queue.py: `AggQueue`, which batches messages by size and by a timer.
-- `sent` is what the `send` callback was given, the oldest first. A timer handle that is not None may
-- have fired already: `scheduled` says whether the event loop still holds its call of `flush`.
pub mod Kept
pub mod Contents
pub mod Timer
mod Tests
use fpvd.Prelude.{
  ℕ, suc, ◌+◌, Bool, true, false, ◌&&◌, ◌||◌, not, Option, none, some, List, [], ◌∷◌, ◌++◌, ltb,
  if◌then◌else◌, length, is_some,
}
use fpvd.Prelude.Int.{pos}
use fpvd.Prelude.Float.{Float}

-- A string of bytes.
abbrev pub Bytes : Type 0
Bytes = List ℕ

-- `b"".join`
abbrev pub join : List Bytes → Bytes
join [] = []
join (m ∷ ms) = m ++ join ms

pub record AggQueue (F : Type 0) : Type 0 where
  pub max_size : Option ℕ
  pub timeout_s : Option F
  pub queue : List Bytes
  pub queue_size : ℕ
  pub timer : Bool
  pub scheduled : Bool
  pub sent : List Bytes

abbrev pub empty : List Bytes → Bool
empty [] = true
empty (m ∷ ms) = false

module _ {F : Type 0} ⦃fl : Float F⦄ where
  -- `timeout_s` as a condition: None and 0 are false.
  abbrev pub is_set : Option F → Bool
  is_set none = false
  is_set (some t) = not (fl.le t (fl.of_int (pos 0)) && fl.le (fl.of_int (pos 0)) t)

  abbrev pub new : Option ℕ → Option F → AggQueue F
  new max_size timeout_s = record {
    max_size = max_size;
    timeout_s = timeout_s;
    queue = [];
    queue_size = 0;
    timer = false;
    scheduled = false;
    sent = [];
  }

  abbrev pub send : AggQueue F → Bytes → AggQueue F
  send q msg = record q { sent = q.sent ++ msg ∷ [] }

  -- `timer.cancel()` and `timer = None`, if there is one.
  abbrev pub cancel : AggQueue F → AggQueue F
  cancel q = if q.timer then record q { timer = false; scheduled = false } else q

  abbrev pub send_queue : AggQueue F → AggQueue F
  send_queue q = record (send q (join q.queue)) { queue = []; queue_size = 0 }

  -- The message does not fit: what is queued goes first.
  unfoldable pub make_room : AggQueue F → ℕ → Bytes → AggQueue F
  make_room q limit msg =
      if ltb limit (q.queue_size + length msg)
      then (if empty (cancel q).queue then cancel q else send_queue (cancel q))
      else q

  unfoldable pub enqueue : AggQueue F → Bytes → AggQueue F
  enqueue q msg =
      let r = record q { queue = q.queue ++ msg ∷ []; queue_size = q.queue_size + length msg } in
      if is_set q.timeout_s && not q.timer then record r { timer = true; scheduled = true } else r

  abbrev pub put_sized : Option ℕ → AggQueue F → Bytes → AggQueue F
  put_sized none q msg = send q msg
  put_sized (some limit) q msg =
      if not (is_set q.timeout_s)
      then send q msg
      else if ltb limit (length msg)
      then q
      else enqueue (make_room q limit msg) msg

  unfoldable pub put : AggQueue F → Bytes → AggQueue F
  put q msg = put_sized q.max_size q msg

  unfoldable pub flush : AggQueue F → AggQueue F
  flush q = if ltb 0 q.queue_size then send_queue (cancel q) else q

  -- The event loop runs the scheduled call.
  unfoldable pub fire : AggQueue F → AggQueue F
  unfolding flush
  fire q = if q.scheduled then flush (record q { scheduled = false }) else q

  unfoldable pub close : AggQueue F → AggQueue F
  close q = cancel q

-- What the owner and the event loop do to a queue.
pub data Event : Type 0 where
  put_event : Bytes → Event
  flush_event fire_event : Event

module _ {F : Type 0} ⦃fl : Float F⦄ where
  unfoldable pub step : AggQueue F → Event → AggQueue F
  step q (put_event msg) = put q msg
  step q flush_event = flush q
  step q fire_event = fire q

  pub run : AggQueue F → List Event → AggQueue F
  run q [] = q
  run q (e ∷ es) = run (step q e) es
