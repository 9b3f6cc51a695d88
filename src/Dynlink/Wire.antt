-- ===== src/Dynlink/Wire.antt =====
-- gs/fpvdgs/dynlink/wire.py: the encoder of the decision packets that go to the drone.
-- `crc` stands for `binascii.crc32`, which is not code of the repository.
pub mod Reads
mod Tests
use fpvd.Prelude.{
  ℕ, zero, suc, ◌+◌, ◌/◌, ◌%◌, ◌^◌, Option, none, some, List, [], ◌∷◌, ◌++◌, ltb, if◌then◌else◌,
}

abbrev pub Bytes : Type 0
Bytes = List ℕ

-- 'DLK1'
abbrev pub magic : ℕ
magic = 1145850673

abbrev pub version_3 : ℕ
version_3 = 3

-- The big-endian bytes of a number.
abbrev pub big_endian : ℕ → ℕ → Bytes
big_endian zero v = []
big_endian (suc n) v = v / 256 ^ n % 256 ∷ big_endian n v

-- A field of `struct.pack` with n bytes; it raises struct.error for a number that does not fit.
abbrev pub field : ℕ → ℕ → Option Bytes
field n v = if ltb v (256 ^ n) then some (big_endian n v) else none

-- The fields of one `struct.pack`, one after the other.
abbrev pub then_field : Option Bytes → Option Bytes → Option Bytes
then_field (some a) (some b) = some (a ++ b)
then_field _ _ = none

abbrev pub crc32 : (Bytes → ℕ) → Bytes → ℕ
crc32 crc bytes = crc bytes % 4294967296

abbrev pub with_crc : (Bytes → ℕ) → Option Bytes → Option Bytes
with_crc crc none = none
with_crc crc (some payload) = some (payload ++ big_endian 4 (crc32 crc payload))

-- `struct.pack(">IBBIB", MAGIC, version, flags, sequence, mcs)`
abbrev pub pack_payload : ℕ → ℕ → ℕ → ℕ → Option Bytes
pack_payload version flags sequence mcs = then_field (field 4 magic) (
    then_field (field 1 version)
      (then_field (field 1 flags) (then_field (field 4 sequence) (field 1 mcs))))

unfoldable pub encode_raw : (Bytes → ℕ) → ℕ → ℕ → ℕ → ℕ → Option Bytes
encode_raw crc version flags sequence mcs = with_crc crc (pack_payload version flags sequence mcs)

pub record Encoder : Type 0 where
  pub seq : ℕ

-- The counter moves on before the packing, which may fail.
unfoldable pub encode : (Bytes → ℕ) → Encoder → ℕ → Option ℕ → Option Bytes × Encoder
encode crc e mcs none =
    (encode_raw crc version_3 0 e.seq mcs, record e { seq = (e.seq + 1) % 4294967296 })
encode crc e mcs (some sequence) = (encode_raw crc version_3 0 sequence mcs, e)

-- The stateless `encode`.
unfoldable pub encode_once : (Bytes → ℕ) → ℕ → ℕ → Option Bytes
encode_once crc mcs sequence = (encode crc (record { seq = sequence }) mcs (some sequence)).0
