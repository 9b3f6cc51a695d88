-- ===== src/Wfb/Mavlink.antt =====
-- gs/fpvdgs/wfb/mavproxy.py: `mavlink_parser_gen`, which cuts a byte stream into mavlink frames.
-- The generator is a record of its local variables, and `send` one round of its outer loop: what it
-- yields, and the state at the next `yield`. The warnings that it logs are left out.
pub mod Turns
pub mod Chunks
pub mod Stream
mod Tests
use fpvd.Prelude.{
  ℕ, zero, suc, ◌+◌, ◌%◌, ◌==◌, Option, none, some, List, [], ◌∷◌, ◌++◌, ltb, if◌then◌else◌, length,
  take, drop,
}
use fpvd.Wfb.AggQueue.{Bytes}

pub record MavlinkParser : Type 0 where
  pub buffer : Bytes
  pub skip : ℕ
  pub bad : ℕ

abbrev pub new : MavlinkParser
new = record { buffer = []; skip = 0; bad = 0 }

-- `buffer[skip:]`
abbrev pub rest : MavlinkParser → Bytes
rest p = drop p.skip p.buffer

-- `mlen`, by the version byte; a caller has eight bytes or more.
abbrev pub frame_len : Bytes → Option ℕ
frame_len (version ∷ len ∷ flags ∷ xs) =
    if version == 254
    then some (8 + len)
    else if version == 253
    then some (len + (if flags % 2 == 1 then 25 else 12))
    else none
frame_len xs = none

-- What a turn of the inner loop finds: fewer than eight bytes, no version byte, a frame that is not
-- complete, or a frame of a length.
pub data Turn : Type 0 where
  wait : Turn
  unsynced : Turn
  incomplete : Turn
  frame : ℕ → Turn

abbrev turn_at : Bytes → Option ℕ → Turn
turn_at xs none = unsynced
turn_at xs (some mlen) = if ltb (length xs) mlen then incomplete else frame mlen

unfoldable pub turn : Bytes → Turn
turn xs = if ltb (length xs) 8 then wait else turn_at xs (frame_len xs)

-- The inner loop: each turn that goes on takes one byte or more.
unfoldable pub scan : ℕ → MavlinkParser → List Bytes × MavlinkParser
scan zero p = ([], p)
scan (suc fuel) p = elim (turn (rest p)) [
  | wait ↦ ([], p)
  | unsynced ↦ scan fuel (record p { skip = p.skip + 1; bad = p.bad + 1 })
  | incomplete ↦ ([], record p { bad = 0 })
  | frame mlen ↦
      let r = scan fuel (record p { skip = p.skip + mlen; bad = 0 }) in
      (take mlen (rest p) ∷ r.0, r.1)
]

unfoldable pub collect_garbage : MavlinkParser → MavlinkParser
collect_garbage p = if ltb 4096 p.skip then record p { buffer = rest p; skip = 0 } else p

abbrev pub extend : MavlinkParser → Bytes → MavlinkParser
extend p chunk = record p { buffer = p.buffer ++ chunk }

unfoldable pub send : MavlinkParser → Bytes → List Bytes × MavlinkParser
send p [] = ([], collect_garbage p)
send p (b ∷ chunk) =
    let r = scan (length (rest (extend p (b ∷ chunk)))) (extend p (b ∷ chunk)) in
    (r.0, collect_garbage r.1)

-- `_split_frames`
unfoldable pub split_frames : Bytes → List Bytes
split_frames chunk = (send new chunk).0
