-- ===== src/Dynlink/Wire/Tests.antt =====
-- The encoder at concrete decisions, with the sum of the bytes in place of the CRC.
use fpvd.Prelude.{ℕ, ◌+◌, ◌%◌, ◌≡◌, refl, none, some, [], ◌∷◌, arith}
use fpvd.Dynlink.Wire.{Bytes, Encoder, encode_raw, encode, encode_once}
use fpvd.Dynlink.Wire.Reads.{Packet, packet_at, encode_all, encode_all-Packet}

abbrev byte_sum : Bytes → ℕ
byte_sum [] = 0
byte_sum (b ∷ bytes) = b + byte_sum bytes

-- The last sequence number: the next one is 0.
abbrev last : Encoder
last = record { seq = 4294967295 }

encoded :
    encode_once byte_sum 5 258
    ≡ some (68 ∷ 76 ∷ 75 ∷ 49 ∷ 3 ∷ 0 ∷ 0 ∷ 0 ∷ 1 ∷ 2 ∷ 5 ∷ 0 ∷ 0 ∷ 1 ∷ 23 ∷ [])
unfolding encode_once encode encode_raw
encoded = refl

-- An index that does not fit raises, and its sequence number is spent.
too_large : encode byte_sum last 256 none ≡ (none, record { seq = 0 })
unfolding encode encode_raw
too_large = refl

encode_all-Packet_example :
    Packet byte_sum
      ((4294967295 + 1) % 4294967296)
      7
      (packet_at (encode_all byte_sum last (3 ∷ 7 ∷ [])) 1)
encode_all-Packet_example =
    encode_all-Packet byte_sum last (3 ∷ 7 ∷ []) 1 7 (ground arith) (ground arith) refl
