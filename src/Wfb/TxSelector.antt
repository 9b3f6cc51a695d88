-- ===== src/Wfb/TxSelector.antt =====
-- gs/fpvdgs/wfb/txsel.py: `TxSelector`, which picks the card that transmits.
-- `stats_agg` maps an antenna to its tuple, of which the source reads the items 0 and 2.
pub mod Best
pub mod Chosen
mod Tests
use fpvd.Prelude.{
  ℕ, ◌/◌, ◌==◌, Bool, true, false, ◌&&◌, ◌||◌, Option, none, some, List, [], ◌∷◌, ltb,
  if◌then◌else◌, any, max, keep,
}
use fpvd.Prelude.Int.{ℤ, pos, negsuc, ◌-ℤ◌, ltb_ℤ, leb_ℤ}
use fpvd.Prelude.Dict.{Dict, get?, put}
use fpvd.Prelude.Float.{Float, max_float}

pub record AntStats : Type 0 where
  pub pkt_s : ℕ
  pub rssi_avg : ℤ

pub record TxSelectorConfig (F : Type 0) : Type 0 where
  pub rssi_delta_db : ℤ
  pub counter_rel_delta : F
  pub counter_abs_delta : ℤ

pub record TxSelector (F : Type 0) : Type 0 where
  pub cfg : TxSelectorConfig F
  pub rx_only_wlan_ids : List ℕ
  pub current : Option ℕ

-- `(wlan, pkt_s, rssi_avg)`
pub record Row : Type 0 where
  pub wlan : ℕ
  pub pkts : ℕ
  pub rssi : ℤ

abbrev pub has : List ℕ → ℕ → Bool
has ws w = any (λ v. v == w) ws

abbrev pub row_of : ℕ × AntStats → Row
row_of (ant_id, v) = record { wlan = ant_id / 256; pkts = v.pkt_s; rssi = v.rssi_avg }

-- The order of the tuples.
abbrev pub row_le : Row → Row → Bool
row_le a b =
    ltb a.wlan b.wlan
    || a.wlan == b.wlan && (ltb a.pkts b.pkts || a.pkts == b.pkts && leb_ℤ a.rssi b.rssi)

unfoldable pub insert_row : Row → List Row → List Row
insert_row r [] = r ∷ []
insert_row r (s ∷ rows) = if row_le r s then r ∷ s ∷ rows else s ∷ insert_row r rows

unfoldable pub sorted_rows : Dict AntStats → List Row
sorted_rows [] = []
sorted_rows (a ∷ stats) = insert_row (row_of a) (sorted_rows stats)

-- The rows of one card that follow each other: a group is never empty.
abbrev pub Group : Type 0
Group = Row × List Row

abbrev pub join_group : Row → List Group → List Group
join_group r [] = (r, []) ∷ []
join_group r ((s, rest) ∷ groups) =
    if r.wlan == s.wlan then (r, s ∷ rest) ∷ groups else (r, []) ∷ (s, rest) ∷ groups

unfoldable pub group_rows : List Row → List Group
group_rows [] = []
group_rows (r ∷ rows) = join_group r (group_rows rows)

abbrev pub max_ℤ : ℤ → ℤ → ℤ
max_ℤ a b = if ltb_ℤ a b then b else a

abbrev pub max_rssi : ℤ → List Row → ℤ
max_rssi m [] = m
max_rssi m (r ∷ rows) = max_rssi (max_ℤ m r.rssi) rows

abbrev pub max_pkts_of : ℕ → List Row → ℕ
max_pkts_of m [] = m
max_pkts_of m (r ∷ rows) = max_pkts_of (max m r.pkts) rows

-- A card's best RSSI and its count of packets.
abbrev pub Ranking : Type 0
Ranking = Dict (ℤ × ℕ)

abbrev pub rank_group : List ℕ → Group → Ranking × ℕ → Ranking × ℕ
rank_group rx_only (r, rest) (ranking, max_pkts) =
    if has rx_only r.wlan then (ranking, max_pkts) else (
      put r.wlan (max_rssi r.rssi rest, max_pkts_of r.pkts rest) ranking,
      max (max_pkts_of r.pkts rest) max_pkts,
    )

unfoldable pub rank_groups : List ℕ → List Group → Ranking × ℕ → Ranking × ℕ
rank_groups rx_only [] acc = acc
rank_groups rx_only (g ∷ groups) acc = rank_groups rx_only groups (rank_group rx_only g acc)

unfoldable pub keys : Ranking → List ℕ
keys [] = []
keys ((w, v) ∷ ranking) = w ∷ keys ranking

-- `(rssi, w)` as the tuples are compared.
abbrev pub pair_lt : ℤ × ℕ → ℤ × ℕ → Bool
pair_lt (a, v) (b, w) = ltb_ℤ a b || leb_ℤ a b && leb_ℤ b a && ltb v w

-- `max` of the pairs from a first one on.
unfoldable pub best_from : ℤ × ℕ → List (ℤ × ℕ) → ℤ × ℕ
best_from m [] = m
best_from m (x ∷ xs) = best_from (if pair_lt m x then x else m) xs

-- `max` of no pairs raises; `select` calls it with the cards near the maximum, which are some.
abbrev pub best : List (ℤ × ℕ) → Option (ℤ × ℕ)
best [] = none
best (x ∷ xs) = some (best_from x xs)

unfoldable pub candidates : List ℕ → Ranking → List (ℤ × ℕ)
candidates near [] = []
candidates near ((w, v) ∷ ranking) =
    let rest = candidates near ranking in if has near w then (v.0, w) ∷ rest else rest

abbrev pub is_current : Option ℕ → ℕ → Bool
is_current none w = false
is_current (some c) w = w == c

abbrev pub has_current : List ℕ → Option ℕ → Bool
has_current near none = false
has_current near (some c) = has near c

abbrev rssi_or : Option (ℤ × ℕ) → ℤ
rssi_or none = negsuc 999
rssi_or (some v) = v.0

unfoldable pub current_rssi : Option ℕ → Ranking → ℤ
current_rssi none ranking = negsuc 999
current_rssi (some c) ranking = rssi_or (get? c ranking)

module _ {F : Type 0} ⦃fl : Float F⦄ where
  unfoldable pub ranked : TxSelector F → Dict AntStats → Ranking × ℕ
  ranked s stats_agg = rank_groups s.rx_only_wlan_ids (group_rows (sorted_rows stats_agg)) ([], 0)

  abbrev pub threshold : TxSelectorConfig F → ℕ → F
  threshold cfg max_pkts = fl.sub (fl.of_int (pos max_pkts)) (
      max_float (fl.of_int cfg.counter_abs_delta)
        (fl.mul (fl.of_int (pos max_pkts)) cfg.counter_rel_delta))

  unfoldable pub near_max : TxSelector F → Dict AntStats → List ℕ
  near_max s stats_agg =
      let (ranking, max_pkts) = ranked s stats_agg in
      keys (keep (λ e. fl.le (threshold s.cfg max_pkts) (fl.of_int (pos e.1.1))) ranking)

  -- The current card is near the maximum and the best one is short of the difference to it.
  abbrev pub held_back : TxSelector F → Ranking → List ℕ → ℤ → Bool
  held_back s ranking near new_rssi =
      has_current near s.current
      && ltb_ℤ (new_rssi -ℤ current_rssi s.current ranking) s.cfg.rssi_delta_db

  -- What follows the choice of the best card: the current one is kept, or replaced.
  unfoldable pub switch_to :
      TxSelector F → Ranking → List ℕ → Option (ℤ × ℕ) → Option ℕ × TxSelector F
  switch_to s ranking near none = (none, s)
  switch_to s ranking near (some (new_rssi, new_wlan)) =
      if is_current s.current new_wlan
      then (none, s)
      else if held_back s ranking near new_rssi
      then (none, s)
      else (some new_wlan, record s { current = some new_wlan })

  -- The source returns early when no card is ranked or near the maximum: there is no best one then.
  unfoldable pub select : TxSelector F → Dict AntStats → Option ℕ × TxSelector F
  select s stats_agg =
      let near = near_max s stats_agg in
      let ranking = (ranked s stats_agg).0 in
      switch_to s ranking near (best (candidates near ranking))
