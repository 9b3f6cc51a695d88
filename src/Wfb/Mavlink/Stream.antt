-- ===== src/Wfb/Mavlink/Stream.antt =====
-- The framer over a stream of chunks.
use mathlib.Core.Path.{subst}
use mathlib.Core.List.{append_assoc, append-nil}
use fpvd.Prelude.{
  ℕ, zero, suc, ◌+◌, ◌≤◌, ◌≡◌, refl, sym, ap, ◌∙◌, ltb, List, [], ◌∷◌, ◌++◌, arith, length,
  length-append, length-drop, take, take-append, drop-append, if_ind, All,
}
use fpvd.Wfb.AggQueue.{Bytes, join}
use fpvd.Wfb.Mavlink.{
  MavlinkParser, Turn, wait, unsynced, incomplete, frame, turn, new, rest, scan, collect_garbage,
  extend, send, split_frames,
}
use fpvd.Wfb.Mavlink.Turns.{
  parse, Fits, turn-Fits, Persists, turn-Persists, drop-append-le, drop-drop,
}
use fpvd.Wfb.Mavlink.Chunks.{parse_fuel, parse-append, IsDone, parse-Left}

-- The consumed prefix lies in the buffer.
abbrev pub IsValid : MavlinkParser → Type 0
IsValid p = p.skip ≤ length p.buffer

-- The same frames, and the same bytes left.
abbrev Agrees : List Bytes × MavlinkParser → List Bytes × Bytes → Type 0
Agrees r q = (r.0 ≡ q.0) × (rest r.1 ≡ q.1) × IsValid r.1

turn-scan :
    (n : ℕ) (p : MavlinkParser)
    → ((q : MavlinkParser) → IsValid q → Agrees (scan n q) (parse n (rest q)))
    → IsValid p
    → (t : Turn) → turn (rest p) ≡ t
    → Fits (rest p) t
    → Agrees (scan (suc n) p) (parse (suc n) (rest p))
unfolding scan parse
turn-scan n p ih v wait e f = rw (scan, parse, e) (refl, refl, v)
turn-scan n p ih v unsynced e f =
    let q = record p { skip = p.skip + 1; bad = p.bad + 1 } in
    rw (scan, parse, e, drop-drop p.skip 1 p.buffer)
      (ih q (omega (arith, v, f, length-drop p.skip p.buffer)))
turn-scan n p ih v incomplete e f = rw (scan, parse, e) (refl, refl, v)
turn-scan n p ih v (frame mlen) e f =
    let q = record p { skip = p.skip + mlen; bad = 0 } in
    let r = ih q (omega (arith, v, f.1, length-drop p.skip p.buffer)) in
    rw (scan, parse, e, drop-drop p.skip mlen p.buffer)
      (ap (λ l. take mlen (rest p) ∷ l) r.0, r.1, r.2)

scan-Agrees : (n : ℕ) (p : MavlinkParser) → IsValid p → Agrees (scan n p) (parse n (rest p))
unfolding scan parse
scan-Agrees zero p v = (refl, refl, v)
scan-Agrees (suc n) p v = turn-scan n p (scan-Agrees n) v (turn (rest p)) refl (turn-Fits (rest p))

collect_garbage-rest :
    (p : MavlinkParser)
    → IsValid p
    → (rest (collect_garbage p) ≡ rest p) × IsValid (collect_garbage p)
unfolding collect_garbage
collect_garbage-rest p v =
    if_ind (λ q. (rest q ≡ rest p) × IsValid q) (ltb 4096 p.skip) _ _ (λ _. (refl, omega arith))
      (λ _. (refl, v))

-- A round of the framer on the bytes that are left: an empty chunk runs no loop.
unfoldable parse_chunk : Bytes → Bytes → List Bytes × Bytes
parse_chunk xs [] = ([], xs)
parse_chunk xs (b ∷ ys) = parse (length (xs ++ b ∷ ys)) (xs ++ b ∷ ys)

send-Agrees :
    (p : MavlinkParser) (chunk : Bytes)
    → IsValid p
    → Agrees (send p chunk) (parse_chunk (rest p) chunk)
unfolding send parse_chunk
send-Agrees p [] v = let g = collect_garbage-rest p v in (refl, g.0, g.1)
send-Agrees p (b ∷ ys) v =
    let q = extend p (b ∷ ys) in
    let n = length (rest q) in
    let r = scan-Agrees n q (omega (arith, v, length-append p.buffer (b ∷ ys))) in
    let g = collect_garbage-rest (scan n q).1 r.2 in
    subst
      (λ xs.
        ((scan n q).0 ≡ (parse (length xs) xs).0)
        × (rest (collect_garbage (scan n q).1) ≡ (parse (length xs) xs).1)
        × IsValid (collect_garbage (scan n q).1))
      (drop-append-le p.skip p.buffer (b ∷ ys) v) (r.0, g.0 ∙ r.1, g.1)

parse_chunk-append :
    (xs ys zs : Bytes)
    → let r = parse_chunk xs ys in
      let q = parse_chunk r.1 zs in parse_chunk xs (ys ++ zs) ≡ (r.0 ++ q.0, q.1)
unfolding parse_chunk
parse_chunk-append xs [] zs = refl
parse_chunk-append xs (y ∷ ys) [] =
    let r = parse_chunk xs (y ∷ ys) in
    ap (parse_chunk xs) (append-nil (y ∷ ys)) ∙ ap (λ l. (l, r.1)) (sym (append-nil r.0))
parse_chunk-append xs (y ∷ ys) (z ∷ zs) =
    let us = xs ++ y ∷ ys in
    let all = us ++ z ∷ zs in
    let r = parse (length us) us in
    let left = parse-Left (length us) us (omega arith) in
    ap (λ l. parse (length l) l) (sym (append_assoc xs (y ∷ ys) (z ∷ zs)))
    ∙ parse-append (length us) (length all) (length all) us (z ∷ zs) (omega arith) (omega arith)
        (omega arith)
    ∙ ap (λ q. (r.0 ++ q.0, q.1))
        (parse_fuel (length all) (length (r.1 ++ z ∷ zs)) (r.1 ++ z ∷ zs)
          (omega (arith, left.0, length-append us (z ∷ zs), length-append r.1 (z ∷ zs)))
          (omega arith))

parse_chunk-parse : (xs : Bytes) → parse_chunk [] xs ≡ parse (length xs) xs
unfolding parse_chunk parse
parse_chunk-parse [] = refl
parse_chunk-parse (x ∷ xs) = refl

-- The chunks as they come: the frames of each call, and the state in the end.
unfoldable pub send_all : MavlinkParser → List Bytes → List Bytes × MavlinkParser
send_all p [] = ([], p)
send_all p (c ∷ chunks) = let r = send p c in let q = send_all r.1 chunks in (r.0 ++ q.0, q.1)

send_all-Agrees :
    (p : MavlinkParser) (chunks : List Bytes)
    → IsValid p
    → Agrees (send_all p chunks) (parse_chunk (rest p) (join chunks))
unfolding send_all parse_chunk
send_all-Agrees p [] v = (refl, refl, v)
send_all-Agrees p (c ∷ chunks) v =
    let r = send p c in
    let a = send-Agrees p c v in
    let b =
      subst (λ xs. Agrees (send_all r.1 chunks) (parse_chunk xs (join chunks))) a.1
        (send_all-Agrees r.1 chunks a.2) in
    rw (parse_chunk-append (rest p) c (join chunks), a.0, b.0) (refl, b.1, b.2)

-- However a stream is cut into chunks, the frames that the framer returns for them are, in order, those
-- it returns for the whole stream at once, and the same bytes wait for the next call.
pub send_all-join :
    (p : MavlinkParser) (chunks : List Bytes)
    → IsValid p
    → ((send_all p chunks).0 ≡ (send p (join chunks)).0)
      × (rest (send_all p chunks).1 ≡ rest (send p (join chunks)).1)
send_all-join p chunks v =
    let a = send_all-Agrees p chunks v in
    let b = send-Agrees p (join chunks) v in (a.0 ∙ sym b.0, a.1 ∙ sym b.1)

-- After a chunk that is not empty the framer's loop has run to its end: what is left is too short for
-- a header or for the frame that its header announces. The consumed prefix stays in the buffer.
pub send-IsDone :
    (p : MavlinkParser) (b : ℕ) (chunk : Bytes)
    → IsValid p
    → IsDone (turn (rest (send p (b ∷ chunk)).1)) × IsValid (send p (b ∷ chunk)).1
unfolding parse_chunk
send-IsDone p b chunk v =
    let a = send-Agrees p (b ∷ chunk) v in
    let xs = rest p ++ b ∷ chunk in
    (subst (λ l. IsDone (turn l)) (sym a.1) (parse-Left (length xs) xs (omega arith)).1, a.2)

-- A whole frame, by its own header.
abbrev pub IsFrame : Bytes → Type 0
IsFrame f = turn f ≡ frame (length f)

parse-join :
    (n : ℕ) (frames : List Bytes)
    → length (join frames) ≤ n
    → All IsFrame frames
    → parse n (join frames) ≡ (frames, [])
unfolding parse turn
parse-join zero [] h a = refl
parse-join (suc n) [] h a = refl
parse-join zero (f ∷ frames) h a =
    let fits = subst (Fits f) a.0 (turn-Fits f) in
    absurd (omega (arith, h, fits.0, length-append f (join frames)))
parse-join (suc n) (f ∷ frames) h a =
    let fits = subst (Fits f) a.0 (turn-Fits f) in
    let e = subst (Persists f (join frames)) a.0 (turn-Persists f (join frames)) in
    rw (parse, e, take-append f (join frames), drop-append f (join frames))
      (ap (λ r. (f ∷ r.0, r.1))
        (parse-join n frames (omega (arith, h, fits.0, length-append f (join frames))) a.1))

-- Frames that follow each other in a batch are split into these frames.
pub split_frames-join :
    (frames : List Bytes) → All IsFrame frames → split_frames (join frames) ≡ frames
unfolding split_frames
split_frames-join frames a =
    (send-Agrees new (join frames) (omega arith)).0
    ∙ ap (λ r. r.0) (parse_chunk-parse (join frames))
    ∙ ap (λ r. r.0) (parse-join (length (join frames)) frames (omega arith) a)
