-- ===== src/Probe/Feed.antt =====
-- gs/fpvdgs/probe/feed.py: `ProbeFeed`. The lock is that of one thread of steps; `now` is the clock's
-- answer.
use fpvd.Prelude.{Bool, false, Option, none, some, List, [], ◌∷◌, if◌then◌else◌}
use fpvd.Prelude.Int.{ℤ, pos, ◌+ℤ◌, ltb_ℤ, eq_ℤ}
use fpvd.Prelude.Dict.{get_by, put_by}
use fpvd.Prelude.Float.{Float}
use fpvd.Prelude.Text.{Text}
use fpvd.Probe.{
  Record, rx_ant, pkt, McsAggregator, Snapshot, on_rx_ant, on_pkt, snapshot, parse_line,
}

pub record ProbeFeed (F : Type 0) : Type 0 where
  pub agg : McsAggregator F
  pub last_mcs : Option ℤ
  pub updated : List (ℤ × F)

-- What the controller reads of a rung.
pub record Rung (F : Type 0) : Type 0 where
  pub per : F
  pub snr : Option ℤ
  pub fresh : Bool

abbrev pub has_packets : ℤ → ℤ → Bool
has_packets decoded lost = ltb_ℤ (pos 0) (decoded +ℤ lost)

module _ {F : Type 0} ⦃fl : Float F⦄ where
  -- `PROBE_FRESH_S`
  abbrev pub fresh_s : F
  fresh_s = fl.decimal 5 1

  abbrev pub new : ProbeFeed F
  new = record {
    agg = record { alpha = fl.decimal 25 2; blackout_windows = 10; slots = [] };
    last_mcs = none;
    updated = [];
  }

  -- A window of packets belongs to the rung of the last antenna line.
  abbrev pub take_window : ProbeFeed F → F → ℤ → ℤ → Option ℤ → ProbeFeed F
  take_window f now decoded lost none = f
  take_window f now decoded lost (some mcs) = record f {
    agg = on_pkt f.agg mcs decoded lost;
    updated = if has_packets decoded lost then put_by eq_ℤ mcs now f.updated else f.updated;
  }

  unfoldable pub feed_record : ProbeFeed F → F → Option Record → ProbeFeed F
  feed_record f now none = f
  feed_record f now (some (rx_ant mcs rssi snr)) = record f {
    last_mcs = some mcs;
    agg = on_rx_ant f.agg mcs rssi snr;
  }
  feed_record f now (some (pkt decoded fec_rec lost)) = take_window f now decoded lost f.last_mcs

  abbrev pub feed_line : ProbeFeed F → F → Text → ProbeFeed F
  feed_line f now line = feed_record f now (parse_line line)

  -- A rung that was never updated is not fresh: its time is minus infinity.
  abbrev pub is_fresh : F → Option F → Bool
  is_fresh now none = false
  is_fresh now (some t) = fl.le (fl.sub now t) fresh_s

  -- A rung without an estimate is left out.
  abbrev pub with_rung : ℤ → Option ℤ → Bool → Option F → List (ℤ × Rung F) → List (ℤ × Rung F)
  with_rung mcs snr fresh none rest = rest
  with_rung mcs snr fresh (some per) rest =
      (mcs, record { per = per; snr = snr; fresh = fresh }) ∷ rest

  unfoldable pub fresh_rungs : F → List (ℤ × F) → List (ℤ × Snapshot F) → List (ℤ × Rung F)
  fresh_rungs now updated [] = []
  fresh_rungs now updated ((mcs, s) ∷ slots) =
      with_rung mcs s.snr (is_fresh now (get_by eq_ℤ mcs updated)) s.per
        (fresh_rungs now updated slots)

  abbrev pub snapshot_fresh : ProbeFeed F → F → List (ℤ × Rung F)
  snapshot_fresh f now = fresh_rungs now f.updated (snapshot f.agg)

  -- Lines with the times at which they come.
  unfoldable pub feed_all : ProbeFeed F → List (F × Text) → ProbeFeed F
  feed_all f [] = f
  feed_all f ((now, line) ∷ lines) = feed_all (feed_line f now line) lines
