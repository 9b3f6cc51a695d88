-- ===== src/Probe.antt =====
-- gs/fpvdgs/probe/parser.py: the lines of the probe's wfb_rx, and what they tell of each rung.
pub mod Feed
pub mod Blackout
pub mod Silence
pub mod Rates
mod Tests
use mathlib.Core.List.{reverse}
use fpvd.Prelude.{
  ℕ, ◌+◌, Bool, true, false, ◌&&◌, Option, none, some, List, [], ◌∷◌, ◌==◌, leb, if◌then◌else◌,
  get_elem?, length, or_else, map,
}
use fpvd.Prelude.Int.{ℤ, pos, ◌+ℤ◌, eq_ℤ, leb_ℤ}
use fpvd.Prelude.Dict.{get_by, put_by}
use fpvd.Prelude.Float.{Float}
use fpvd.Prelude.Text.{Text, codes, text_eq, split, ints_of}

pub data Record : Type 0 where
  rx_ant : ℤ → ℤ → ℤ → Record  -- mcs, rssi, snr
  pkt : ℤ → ℤ → ℤ → Record  -- data, fec_rec, lost

-- `line.rstrip("\n")`
abbrev drop_newlines : Text → Text
drop_newlines [] = []
drop_newlines (c ∷ s) = if c == 10 then drop_newlines s else c ∷ s

abbrev pub rstrip_newline : Text → Text
rstrip_newline s = reverse (drop_newlines (reverse s))

-- The numbers of a column; `none` is a ValueError.
abbrev pub column : Text → Option (List ℤ)
column s = ints_of (split 58 s)

-- The values are count, rssi_min, rssi_avg, rssi_max, snr_min, snr_avg, snr_max.
abbrev pub ant_of : Option (List ℤ) → Option (List ℤ) → Option Record
ant_of (some (freq ∷ mcs ∷ bw ∷ [])) (some (n ∷ r0 ∷ rssi ∷ r2 ∷ s0 ∷ snr ∷ s2 ∷ more)) =
    some (rx_ant mcs rssi snr)
ant_of _ _ = none

abbrev pub pkt_of : Option (List ℤ) → Option Record
pkt_of (some (f0 ∷ f1 ∷ f2 ∷ f3 ∷ decoded ∷ f5 ∷ fec_rec ∷ lost ∷ more)) =
    some (pkt decoded fec_rec lost)
pkt_of _ = none

abbrev pub rx_ant_columns : Text → List Text → Option Record
rx_ant_columns third (ant ∷ values ∷ more) = ant_of (column third) (column values)
rx_ant_columns third _ = none

abbrev pub parse_columns : List Text → Option Record
parse_columns (ts ∷ kind ∷ third ∷ more) =
    if text_eq kind (codes "RX_ANT")
    then rx_ant_columns third more
    else if text_eq kind (codes "PKT")
    then pkt_of (column third)
    else none
parse_columns _ = none

unfoldable pub parse_line : Text → Option Record
parse_line line = parse_columns (split 9 (rstrip_newline line))

-- What is kept of a rung.
pub record Slot (F : Type 0) : Type 0 where
  pub per : Option F
  pub rssi : Option ℤ
  pub snr : Option ℤ
  pub windows : ℕ
  pub empty : ℕ

pub record Snapshot (F : Type 0) : Type 0 where
  pub per : Option F
  pub rssi : Option ℤ
  pub snr : Option ℤ
  pub windows : ℕ

pub record McsAggregator (F : Type 0) : Type 0 where
  pub alpha : F
  pub blackout_windows : ℕ
  pub slots : List (ℤ × Slot F)

module _ {F : Type 0} where
  abbrev pub new_slot : Slot F
  new_slot = record { per = none; rssi = none; snr = none; windows = 0; empty = 0 }

  -- `_slot`
  abbrev pub slot : McsAggregator F → ℤ → Slot F
  slot g mcs = or_else (get_by eq_ℤ mcs g.slots) new_slot

  abbrev pub store : McsAggregator F → ℤ → Slot F → McsAggregator F
  store g mcs s = record g { slots = put_by eq_ℤ mcs s g.slots }

  unfoldable pub on_rx_ant : McsAggregator F → ℤ → ℤ → ℤ → McsAggregator F
  on_rx_ant g mcs rssi snr = store g mcs (record (slot g mcs) { rssi = some rssi; snr = some snr })

  -- A copy of the slots without their counts of empty windows.
  abbrev pub snapshot : McsAggregator F → List (ℤ × Snapshot F)
  snapshot g =
      map
        (λ e.
          (e.0, record { per = e.1.per; rssi = e.1.rssi; snr = e.1.snr; windows = e.1.windows }))
        g.slots

module _ {F : Type 0} ⦃fl : Float F⦄ where
  -- A window without packets: only a run of them counts as a loss.
  abbrev pub empty_window : ℕ → Slot F → Slot F
  empty_window blackout s =
      let n = s.empty + 1 in
      record s { empty = n; per = if leb blackout n then some (fl.of_int (pos 1)) else s.per }

  abbrev pub smooth : F → F → Option F → F
  smooth alpha win_per none = win_per
  smooth alpha win_per (some per) =
      fl.add (fl.mul alpha win_per) (fl.mul (fl.sub (fl.of_int (pos 1)) alpha) per)

  abbrev pub packet_window : F → ℤ → ℤ → Slot F → Slot F
  packet_window alpha lost denom s = record s {
    empty = 0;
    per = some (smooth alpha (fl.div (fl.of_int lost) (fl.of_int denom)) s.per);
    windows = s.windows + 1;
  }

  unfoldable pub on_pkt : McsAggregator F → ℤ → ℤ → ℤ → McsAggregator F
  on_pkt g mcs decoded lost =
      let denom = decoded +ℤ lost in
      store g mcs (
        if leb_ℤ denom (pos 0)
        then empty_window g.blackout_windows (slot g mcs)
        else packet_window g.alpha lost denom (slot g mcs))
