-- ===== src/Dynlink/Wire/Reads.antt =====
-- What the drone reads in an encoded packet.
use mathlib.Core.Path.{subst}
use fpvd.Prelude.{
  ℕ, zero, suc, ◌+◌, ◌*◌, ◌%◌, ◌<◌, ◌≡◌, refl, Option, none, some, List, [], ◌∷◌, arith, lt→ltb,
  length, take, drop, get_elem?, All,
}
use fpvd.Dynlink.Wire.{Bytes, Encoder, magic, big_endian, crc32, encode_raw, encode}

-- A big-endian number, after the digits read before it.
abbrev pub read_from : ℕ → Bytes → ℕ
read_from acc [] = acc
read_from acc (b ∷ bytes) = read_from (acc * 256 + b) bytes

-- The field of n bytes at an offset.
abbrev pub read : ℕ → ℕ → Bytes → ℕ
read offset n bytes = read_from 0 (take n (drop offset bytes))

read_one : (v : ℕ) → v < 256 → read_from 0 (big_endian 1 v) ≡ v
read_one v h = omega (arith, h)

read_four : (v : ℕ) → v < 4294967296 → read_from 0 (big_endian 4 v) ≡ v
read_four v h = omega (arith, h)

-- A packet as the drone takes it apart: 15 bytes, with its fields where the layout has them.
abbrev pub Packet : (Bytes → ℕ) → ℕ → ℕ → Option Bytes → Type 0
Packet crc seq mcs none = ⊥
Packet crc seq mcs (some w) =
    (length w ≡ 15)
    × All (λ b. b < 256) w
    × (read 0 4 w ≡ magic)
    × (read 4 1 w ≡ 3)
    × (read 5 1 w ≡ 0)
    × (read 6 4 w ≡ seq)
    × (read 10 1 w ≡ mcs)
    × (read 11 4 w ≡ crc32 crc (take 11 w))

encode_raw-Packet :
    (crc : Bytes → ℕ) (seq mcs : ℕ)
    → seq < 4294967296
    → mcs < 256
    → Packet crc seq mcs (encode_raw crc 3 0 seq mcs)
unfolding encode_raw
encode_raw-Packet crc seq mcs h k =
    rw (lt→ltb seq 4294967296 h, lt→ltb mcs 256 k)
      (
        refl,
        ground arith,
        refl,
        refl,
        refl,
        read_four seq h,
        read_one mcs k,
        read_four _ (omega arith),
      )

-- The packets of a run of decisions, by their indices.
unfoldable pub encode_all : (Bytes → ℕ) → Encoder → List ℕ → List (Option Bytes)
encode_all crc e [] = []
encode_all crc e (m ∷ decisions) = let r = encode crc e m none in r.0 ∷ encode_all crc r.1 decisions

abbrev pub packet_at : List (Option Bytes) → ℕ → Option Bytes
packet_at [] i = none
packet_at (o ∷ packets) zero = o
packet_at (o ∷ packets) (suc i) = packet_at packets i

-- Each of a run of decisions whose indices fit a byte is encoded, as 15 bytes that hold the magic, the
-- version 3, no flags, the index and the checksum of what precedes it; the sequence number of the
-- packet at place i is i more than the first one, modulo 2^32.
pub encode_all-Packet :
    (crc : Bytes → ℕ) (e : Encoder) (decisions : List ℕ) (i m : ℕ)
    → e.seq < 4294967296
    → All (λ n. n < 256) decisions
    → get_elem? decisions i ≡ some m
    → Packet crc ((e.seq + i) % 4294967296) m (packet_at (encode_all crc e decisions) i)
unfolding encode_all encode
encode_all-Packet crc e [] i m h a g = absurd (ground (arith, g))
encode_all-Packet crc e (n ∷ decisions) zero m h a g =
    subst (λ s. Packet crc s m (encode_raw crc 3 0 e.seq n)) (omega (arith, h))
      (subst (λ k. Packet crc e.seq k (encode_raw crc 3 0 e.seq n)) (ground (arith, g))
        (encode_raw-Packet crc e.seq n h a.0))
encode_all-Packet crc e (n ∷ decisions) (suc i) m h a g =
    let t = record e { seq = (e.seq + 1) % 4294967296 } in
    subst (λ s. Packet crc s m (packet_at (encode_all crc t decisions) i)) (omega arith)
      (encode_all-Packet crc t decisions i m (omega arith) a.1 g)
