-- ===== src/Wfb/Mavlink/Tests.antt =====
-- The framer at concrete bytes.
use fpvd.Prelude.{◌≡◌, refl, List, [], ◌∷◌, ◌++◌, arith}
use fpvd.Wfb.AggQueue.{Bytes, join}
use fpvd.Wfb.Mavlink.{MavlinkParser, new, rest, scan, collect_garbage, send, split_frames, turn}
use fpvd.Wfb.Mavlink.Chunks.{IsDone}
use fpvd.Wfb.Mavlink.Stream.{IsValid, send_all, send_all-join, send-IsDone, split_frames-join}

-- A mavlink 1 frame with one byte, and signed and unsigned mavlink 2 frames with none.
abbrev first : Bytes
first = 254 ∷ 1 ∷ 0 ∷ 3 ∷ 68 ∷ 0 ∷ 9 ∷ 170 ∷ 187 ∷ []

abbrev signed : Bytes
signed =
    253 ∷ 0 ∷ 1 ∷ 0 ∷ 0 ∷ 3 ∷ 68 ∷ 0 ∷ 0 ∷ 0 ∷ 1 ∷ 2 ∷ 3 ∷ 4 ∷ 5 ∷ 6 ∷ 7 ∷ 8 ∷ 9 ∷ 10 ∷ 11 ∷ 12 ∷ 13
    ∷ 14 ∷ 15 ∷ []

abbrev unsigned : Bytes
unsigned = 253 ∷ 0 ∷ 0 ∷ 0 ∷ 0 ∷ 3 ∷ 68 ∷ 0 ∷ 0 ∷ 0 ∷ 1 ∷ 2 ∷ []

-- Two bytes of another protocol, a whole frame, and the start of the next one.
resynced :
    send new (7 ∷ 8 ∷ first ++ 253 ∷ 0 ∷ [])
    ≡ (first ∷ [], record { buffer = 7 ∷ 8 ∷ first ++ 253 ∷ 0 ∷ []; skip = 11; bad = 0 })
unfolding send scan turn collect_garbage
resynced = refl

abbrev started : MavlinkParser
started = record { buffer = first ++ 253 ∷ 0 ∷ []; skip = 9; bad = 0 }

abbrev chunks : List Bytes
chunks =
    (1 ∷ 0 ∷ 0 ∷ 3 ∷ 68 ∷ 0 ∷ 0 ∷ 0 ∷ 1 ∷ 2 ∷ 3 ∷ 4 ∷ 5 ∷ [])
    ∷ []
    ∷ (6 ∷ 7 ∷ 8 ∷ 9 ∷ 10 ∷ 11 ∷ 12 ∷ 13 ∷ 14 ∷ 15 ∷ 254 ∷ [])
    ∷ []

cut_signed : (send_all started chunks).0 ≡ signed ∷ []
unfolding send_all send scan turn collect_garbage
cut_signed = refl

send_all-join_example :
    ((send_all started chunks).0 ≡ (send started (join chunks)).0)
    × (rest (send_all started chunks).1 ≡ rest (send started (join chunks)).1)
send_all-join_example = send_all-join started chunks (ground arith)

send-IsDone_run :
    IsDone (turn (rest (send started (1 ∷ 0 ∷ 0 ∷ [])).1))
    × IsValid (send started (1 ∷ 0 ∷ 0 ∷ [])).1
send-IsDone_run = send-IsDone started 1 (0 ∷ 0 ∷ []) (ground arith)

split_frames-join_run :
    split_frames (join (first ∷ signed ∷ unsigned ∷ [])) ≡ first ∷ signed ∷ unsigned ∷ []
unfolding turn
split_frames-join_run =
    split_frames-join (first ∷ signed ∷ unsigned ∷ []) (refl, (refl, (refl, tt)))
