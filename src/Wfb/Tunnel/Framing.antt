-- ===== src/Wfb/Tunnel/Framing.antt =====
-- The framing of the radio batch: packing and unpacking are inverse, and the loop has enough fuel.
use fpvd.Prelude.{
  ℕ, zero, suc, ◌+◌, ◌*◌, ◌/◌, ◌%◌, ◌≤◌, ◌<◌, ◌≡◌, ◌∙◌, ap, sym, inl, inr, refl, true, false,
  Option, none, some, List, [], ◌∷◌, ◌++◌, arith, ltb, if◌then◌else◌, length, take, drop,
  length-drop, length-append, take-append, drop-append, Bool-cases, All,
}
use mathlib.Core.List.{append_assoc}
use fpvd.Wfb.AggQueue.{Bytes}
use fpvd.Wfb.Tunnel.{pack_tun, unpack_from, unpack_batch}

-- A packet of a length that two bytes can say, in its frame.
abbrev pub framed : Bytes → Bytes
framed p = length p / 256 ∷ length p % 256 ∷ p

pub pack_tun-framed : (p : Bytes) → length p < 65536 → pack_tun p ≡ some (framed p)
unfolding pack_tun
pack_tun-framed p h = let e : ltb (length p) 65536 ≡ true = ground arith in rw e

-- Any two fuels of at least the length of the batch give the same packets: the loop ends by
-- itself.
pub unpack_from_fuel :
    (n m : ℕ) (msg : Bytes)
    → length msg ≤ n
    → length msg ≤ m
    → unpack_from n msg ≡ unpack_from m msg
unfolding unpack_from
unpack_from_fuel zero zero msg h k = refl
unpack_from_fuel zero (suc m) [] h k = refl
unpack_from_fuel zero (suc m) (b ∷ msg) h k = absurd (omega (arith, h))
unpack_from_fuel (suc n) zero [] h k = refl
unpack_from_fuel (suc n) zero (b ∷ msg) h k = absurd (omega (arith, k))
unpack_from_fuel (suc n) (suc m) [] h k = refl
unpack_from_fuel (suc n) (suc m) (b ∷ []) h k = refl
unpack_from_fuel (suc n) (suc m) (b ∷ c ∷ body) h k =
    let size = b * 256 + c in
    let d = length-drop size body in
    let rest = unpack_from_fuel n m (drop size body) (omega (arith, h, d)) (omega (arith, k, d)) in
    ap (λ r. if ltb (length body) size then [] else take size body ∷ r) rest

-- A framed packet at the head of a batch is unpacked, whatever follows it.
unpack_batch-framed :
    (p rest : Bytes) → length p < 65536 → unpack_batch (framed p ++ rest) ≡ p ∷ unpack_batch rest
unfolding unpack_batch unpack_from
unpack_batch-framed p rest h =
    let size : length p / 256 * 256 + length p % 256 ≡ length p = omega arith in
    let long : ltb (length (p ++ rest)) (length p) ≡ false = ground (arith, length-append p rest) in
    rw (size, long, take-append p rest, drop-append p rest)
      (ap (λ r. p ∷ r)
        (unpack_from_fuel (suc (length (p ++ rest))) (length rest) rest
          (omega (arith, length-append p rest)) (omega arith)))

abbrev pub frame_all : List Bytes → Bytes
frame_all [] = []
frame_all (p ∷ ps) = framed p ++ frame_all ps

-- The frames of short packets, followed by a tail, unpack to the packets and then what the tail
-- unpacks to.
pub unpack_batch-frame_all :
    (ps : List Bytes) (tail : Bytes)
    → All (λ (p : Bytes). length p < 65536) ps
    → unpack_batch (frame_all ps ++ tail) ≡ ps ++ unpack_batch tail
unpack_batch-frame_all [] tail h = refl
unpack_batch-frame_all (p ∷ ps) tail h =
    ap unpack_batch (append_assoc (framed p) (frame_all ps) tail)
    ∙ (unpack_batch-framed p (frame_all ps ++ tail) h.0
        ∙ ap (λ r. p ∷ r) (unpack_batch-frame_all ps tail h.1))

pub unpack_batch-empty : unpack_batch [] ≡ []
unfolding unpack_batch unpack_from
unpack_batch-empty = refl

abbrev both : Option Bytes → Option Bytes → Option Bytes
both (some a) (some b) = some (a ++ b)
both _ _ = none

-- The packets of a batch, each packed; `none` if one cannot be.
abbrev pub pack_all : List Bytes → Option Bytes
pack_all [] = some []
pack_all (p ∷ ps) = both (pack_tun p) (pack_all ps)

both-some :
    (x y : Option Bytes) (c : Bytes)
    → both x y ≡ some c
    → (a : Bytes) × (b : Bytes) × (x ≡ some a) × (y ≡ some b) × (c ≡ a ++ b)
both-some none y c h = absurd (ground (arith, h))
both-some (some a) none c h = absurd (ground (arith, h))
both-some (some a) (some b) c h = (a, b, refl, refl, ground (arith, h))

pack_tun-some : (p a : Bytes) → pack_tun p ≡ some a → (length p < 65536) × (a ≡ framed p)
unfolding pack_tun
pack_tun-some p a h = elim (Bool-cases (ltb (length p) 65536)) [
  | inl e ↦ (ground (arith, e), ground (arith, rw e at h))
  | inr e ↦ absurd (ground (arith, rw e at h))
]

-- What `pack_tun` makes of packets, one after the other and followed by any tail, unpacks to the
-- packets and then what the tail unpacks to: a corrupt tail loses no packet before it.
pub unpack_batch-pack_all :
    (ps : List Bytes) (batch tail : Bytes)
    → pack_all ps ≡ some batch
    → unpack_batch (batch ++ tail) ≡ ps ++ unpack_batch tail
unpack_batch-pack_all [] batch tail h =
    let e : [] ≡ batch = ground (arith, h) in ap (λ b. unpack_batch (b ++ tail)) (sym e)
unpack_batch-pack_all (p ∷ ps) batch tail h =
    let c = both-some (pack_tun p) (pack_all ps) batch h in
    let f = pack_tun-some p c.0 c.2 in
    ap (λ b. unpack_batch (b ++ tail)) (c.4 ∙ ap (λ a. a ++ c.1) f.1)
    ∙ (ap unpack_batch (append_assoc (framed p) c.1 tail)
        ∙ (unpack_batch-framed p (c.1 ++ tail) f.0
            ∙ ap (λ r. p ∷ r) (unpack_batch-pack_all ps c.1 tail c.3)))
