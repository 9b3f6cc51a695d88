-- ===== src/Wfb/Lineproto.antt =====
-- gs/fpvdgs/wfb/lineproto.py: the parsers of the lines that wfb_rx and wfb_tx print. A callback is a
-- record in the list of calls that the parser has made, the oldest first.
pub mod Rx
pub mod Tx
pub mod Totals
pub mod Sums
mod Tests
use fpvd.Prelude.{
  ℕ, Bool, ◌&&◌, Option, none, some, List, [], ◌∷◌, ltb, if◌then◌else◌, length, take,
}
use fpvd.Prelude.Int.{ℤ, ◌+ℤ◌, pos, eq_ℤ}
use fpvd.Prelude.Text.{Text, split, ints_of}

abbrev pub tab : ℕ
tab = 9

abbrev pub colon : ℕ
colon = 58

-- `tuple(a + b for a, b in zip(counters, cumulative))`
unfoldable pub zip_add : List ℤ → List ℤ → List ℤ
zip_add (a ∷ as') (b ∷ bs) = (a +ℤ b) ∷ zip_add as' bs
zip_add _ _ = []

-- `_pairs`
abbrev pub cumulate : List ℤ → Option (List ℤ) → List ℤ
cumulate counters none = counters
cumulate counters (some cumulative) = zip_add counters cumulative

-- `dict(zip(KEYS, zip(counters, cumulative)))`, in the order of the keys.
unfoldable pub zip_pairs : List ℤ → List ℤ → List (ℤ × ℤ)
zip_pairs (a ∷ as') (b ∷ bs) = (a, b) ∷ zip_pairs as' bs
zip_pairs _ _ = []

-- The integers of a column.
abbrev pub ints_in : Text → Option (List ℤ)
ints_in column = ints_of (split colon column)

abbrev pub rx_pkt_keys : ℕ
rx_pkt_keys = 11

abbrev pub tx_pkt_keys : ℕ
tx_pkt_keys = 7
