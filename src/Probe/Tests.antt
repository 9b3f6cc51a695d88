-- ===== src/Probe/Tests.antt =====
-- A probe on rung 3, in fixed-point numbers.
use fpvd.Prelude.{
  ℕ, ◌+◌, ◌*◌, ◌/◌, ◌≤◌, ◌≡◌, refl, none, some, List, [], ◌∷◌, All, arith, true, false,
}
use fpvd.Prelude.Int.{ℤ, pos, negsuc, ◌+ℤ◌, ◌-ℤ◌, ◌*ℤ◌, add_pos}
use fpvd.Prelude.Dict.{get_by, put_by}
use fpvd.Prelude.Fixed.{milli}
use fpvd.Prelude.Text.{Text, codes, split, strip, int_of, ints_of, digits_from}
use fpvd.Dynlink.Signals.Rates.{InUnit}
use fpvd.Dynlink.Signals.FixedShares.{in_unit, milli-HasShares}
use fpvd.Probe.{rx_ant, pkt, parse_line, McsAggregator, on_rx_ant, on_pkt}
use fpvd.Probe.Feed.{ProbeFeed, new, feed_record, feed_all, fresh_rungs, snapshot_fresh}
use fpvd.Probe.Silence.{IsQuiet, IsOld, feed_all-Stale}
use fpvd.Probe.Rates.{IsCounted, HasMeans, feed_all-InUnit}

abbrev ant_line : Text
ant_line = codes "12\tRX_ANT\t5805:3:20\t0\t2:-61:-60:-59:20:21:22\n"

abbrev pkt_line : Text
pkt_line = codes "12\tPKT\t4:400:0:0:3:3:0:1:0:3:300"

abbrev empty_line : Text
empty_line = codes "13\tPKT\t0:0:0:0:0:0:0:0:0:0:0"

parsed_ant : parse_line ant_line ≡ some (rx_ant (pos 3) (negsuc 59) (pos 21))
unfolding parse_line split ints_of int_of strip digits_from
parsed_ant = refl

parsed_pkt : parse_line pkt_line ≡ some (pkt (pos 3) (pos 0) (pos 1))
unfolding parse_line split ints_of int_of strip digits_from
parsed_pkt = refl

parsed_empty : parse_line empty_line ≡ some (pkt (pos 0) (pos 0) (pos 0))
unfolding parse_line split ints_of int_of strip digits_from
parsed_empty = refl

abbrev lines : List (ℤ × Text)
lines = (pos 0, ant_line) ∷ (pos 100, pkt_line) ∷ []

-- One packet of four is lost.
read :
    snapshot_fresh ⦃fl = milli⦄ (feed_all ⦃fl = milli⦄ (new ⦃fl = milli⦄) lines) (pos 300)
    ≡ (pos 3, record { per = pos 250; snr = some (pos 21); fresh = true }) ∷ []
unfolding feed_all feed_record on_rx_ant on_pkt fresh_rungs parse_line split ints_of int_of strip
    digits_from get_by put_by milli ◌+ℤ◌ ◌-ℤ◌ ◌*ℤ◌
read = refl

abbrev agg : McsAggregator ℤ
agg = record {
  alpha = pos 250;
  blackout_windows = 3;
  slots =
      (
        pos 3,
        record { per = some (pos 250); rssi = none; snr = some (pos 21); windows = 1; empty = 0 },
      )
      ∷ [];
}

abbrev blackout : List (ℤ × ℤ)
blackout = (pos 0, pos 0) ∷ (pos 0, pos 0) ∷ (pos 0, pos 0) ∷ []

abbrev heard : ProbeFeed ℤ
heard = record { agg = agg; last_mcs = some (pos 3); updated = (pos 3, pos 100) ∷ [] }

abbrev silence : List (ℤ × Text)
silence = (pos 400, empty_line) ∷ (pos 500, empty_line) ∷ []

quiet : IsQuiet (parse_line empty_line)
unfolding parse_line split ints_of int_of strip digits_from ◌+ℤ◌
quiet = refl

old : IsOld ⦃fl = milli⦄ (pos 700) ((pos 3, pos 100) ∷ [])
unfolding milli ◌-ℤ◌
old = (refl, tt)

feed_all-Stale_example :
    All
      (λ e. e.1.fresh ≡ false)
      (snapshot_fresh ⦃fl = milli⦄ (feed_all ⦃fl = milli⦄ heard silence) (pos 700))
feed_all-Stale_example =
    feed_all-Stale ⦃fl = milli⦄ heard silence (pos 700) (quiet, (quiet, tt)) old

one_share : (n : ℕ) → pos 250 *ℤ pos n ≡ pos (250 * n)
unfolding ◌*ℤ◌
one_share n = ground arith

other_share : (n : ℕ) → pos 750 *ℤ pos n ≡ pos (750 * n)
unfolding ◌*ℤ◌
other_share n = ground arith

share_bound : (n : ℕ) → InUnit milli (pos n) → n ≤ 1000
unfolding milli ◌*ℤ◌
share_bound n h = ground (arith, h.1)

not_negative : (n : ℕ) → InUnit milli (negsuc n) → ⊥
unfolding milli ◌*ℤ◌
not_negative n h = ground (arith, h.0)

mean_bound : (n m : ℕ) → n ≤ 1000 → m ≤ 1000 → 250 * n / 1000 + 750 * m / 1000 ≤ 1000
mean_bound n m h k = omega (arith, h, k)

milli_mean :
    (x y : ℤ)
    → InUnit milli x
    → InUnit milli y
    → InUnit milli (milli.add (milli.mul (pos 250) x) (milli.mul (pos 750) y))
unfolding milli
milli_mean (negsuc n) y h k = absurd (not_negative n h)
milli_mean (pos n) (negsuc m) h k = absurd (not_negative m k)
milli_mean (pos n) (pos m) h k =
    rw (one_share n, other_share m, add_pos (250 * n / 1000) (750 * m / 1000))
      (in_unit (250 * n / 1000 + 750 * m / 1000)
        (mean_bound n m (share_bound n h) (share_bound m k)))

milli-HasMeans : HasMeans milli (milli.decimal 25 2)
unfolding milli ◌-ℤ◌ ◌*ℤ◌
milli-HasMeans = record { one = in_unit 1000 (omega arith); mean = milli_mean }

counted : IsCounted (parse_line pkt_line)
unfolding parse_line split ints_of int_of strip digits_from
counted = ((3, refl), (1, refl))

counted_ant : IsCounted (parse_line ant_line)
unfolding parse_line split ints_of int_of strip digits_from
counted_ant = tt

feed_all-InUnit_example :
    All
      (λ e. InUnit milli e.1.per)
      (snapshot_fresh ⦃fl = milli⦄ (feed_all ⦃fl = milli⦄ (new ⦃fl = milli⦄) lines) (pos 300))
feed_all-InUnit_example =
    feed_all-InUnit ⦃fl = milli⦄ milli-HasShares milli-HasMeans lines (pos 300)
      (counted_ant, (counted, tt))
