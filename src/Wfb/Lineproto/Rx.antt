-- ===== src/Wfb/Lineproto/Rx.antt =====
-- `RxLineParser`. `none` is `_Bad` or a ValueError: the line is logged and changes nothing.
use Prim.Native.String.{String}
use text.Mathlib.Text.{◌==◌ as str_eq}
use fpvd.Prelude.{
  Bool, ◌&&◌, Option, none, some, List, [], ◌∷◌, ◌++◌, ◌==◌, ltb, if◌then◌else◌, length, take,
}
use fpvd.Prelude.Int.{ℤ, pos, negsuc, eq_ℤ}
use fpvd.Prelude.Dict.{put_by}
use fpvd.Prelude.Text.{Text, codes, text_eq, strip, split, int_of}
use fpvd.Wfb.Lineproto.{tab, cumulate, zip_pairs, ints_in, rx_pkt_keys}

pub record Session : Type 0 where
  pub fec_type : String
  pub fec_k : ℤ
  pub fec_n : ℤ
  pub epoch : ℤ
  pub contract_version : ℤ

-- The key of an antenna's statistics: `(freq, mcs, bw)` and the antenna.
pub record AntKey : Type 0 where
  pub freq : ℤ
  pub mcs : ℤ
  pub bw : ℤ
  pub ant_id : ℤ

abbrev pub Ants : Type 0
Ants = List (AntKey × List ℤ)

pub data Call : Type 0 where
  window : List (ℤ × ℤ) → Ants → Option Session → Call
  session_changed : Session → Call

pub record RxLineParser : Type 0 where
  pub ant : Ants
  pub cum : Option (List ℤ)
  pub session : Option Session
  pub calls : List Call

abbrev pub new : RxLineParser
new = record { ant = []; cum = none; session = none; calls = [] }

abbrev pub same_key : AntKey → AntKey → Bool
same_key a b = eq_ℤ a.freq b.freq && eq_ℤ a.mcs b.mcs && eq_ℤ a.bw b.bw && eq_ℤ a.ant_id b.ant_id

abbrev pub same_session : Session → Session → Bool
same_session a b =
    str_eq a.fec_type b.fec_type
    && eq_ℤ a.fec_k b.fec_k
    && eq_ℤ a.fec_n b.fec_n
    && eq_ℤ a.epoch b.epoch
    && eq_ℤ a.contract_version b.contract_version

-- `session != self._session`
abbrev pub is_known : Session → Option Session → Bool
is_known s none = Bool.false
is_known s (some t) = same_session s t

-- `FEC_TYPES.get(fec_type, "Unknown")`
abbrev pub fec_type_of : ℤ → String
fec_type_of t = if eq_ℤ t (pos 1) then "VDM_RS" else if eq_ℤ t (pos 2) then "swfec" else "Unknown"

-- The values of a wfb_rx that does not report the EVM are completed.
abbrev pub with_evm : List ℤ → List ℤ
with_evm vals = if length vals == 7 then vals ++ negsuc 0 ∷ negsuc 0 ∷ negsuc 0 ∷ [] else vals

abbrev pub store_ant :
    RxLineParser → Option (List ℤ) → Option (List ℤ) → Option ℤ → Option RxLineParser
store_ant p (some (freq ∷ mcs ∷ bw ∷ [])) (some vals) (some ant_id) =
    if length (with_evm vals) == 10
    then some (record p {
      ant =
          put_by same_key (record { freq = freq; mcs = mcs; bw = bw; ant_id = ant_id })
            (with_evm vals) p.ant;
    })
    else none
store_ant p _ _ _ = none

unfoldable pub on_rx_ant : RxLineParser → List Text → Option RxLineParser
on_rx_ant p (ts ∷ cmd ∷ key ∷ ant_id ∷ vals ∷ []) =
    store_ant p (ints_in key) (ints_in vals) (int_of 16 ant_id)
on_rx_ant p _ = none

-- The window that ends: its counters, with the sums since the start.
abbrev pub close_window : RxLineParser → List ℤ → RxLineParser
close_window p counters =
    let cum = cumulate counters p.cum in
    record p {
      ant = [];
      cum = some cum;
      calls = p.calls ++ window (zip_pairs counters cum) p.ant p.session ∷ [];
    }

abbrev pub count_window : RxLineParser → Option (List ℤ) → Option RxLineParser
count_window p none = none
count_window p (some counters) =
    if ltb (length counters) rx_pkt_keys
    then none
    else some (close_window p (take rx_pkt_keys counters))

unfoldable pub on_pkt : RxLineParser → List Text → Option RxLineParser
on_pkt p (ts ∷ cmd ∷ counters ∷ []) = count_window p (ints_in counters)
on_pkt p _ = none

abbrev pub first_or : List ℤ → ℤ → ℤ
first_or [] d = d
first_or (v ∷ rest) d = v

abbrev pub session_of : ℤ → ℤ → ℤ → ℤ → List ℤ → Session
session_of epoch fec_type fec_k fec_n rest = record {
  fec_type = fec_type_of fec_type;
  fec_k = fec_k;
  fec_n = fec_n;
  epoch = epoch;
  contract_version = first_or rest (pos 1);
}

abbrev pub take_session : RxLineParser → Option (List ℤ) → Option RxLineParser
take_session p (some (epoch ∷ fec_type ∷ fec_k ∷ fec_n ∷ rest)) =
    let s = session_of epoch fec_type fec_k fec_n rest in
    some (
      if is_known s p.session
      then p
      else record p { session = some s; calls = p.calls ++ session_changed s ∷ [] })
take_session p _ = none

unfoldable pub on_session : RxLineParser → List Text → Option RxLineParser
on_session p (ts ∷ cmd ∷ parts ∷ []) = take_session p (ints_in parts)
on_session p _ = none

-- The command column decides.
unfoldable pub dispatch : RxLineParser → List Text → Option RxLineParser
dispatch p (ts ∷ cmd ∷ cols) =
    if text_eq cmd (codes "RX_ANT")
    then on_rx_ant p (ts ∷ cmd ∷ cols)
    else if text_eq cmd (codes "PKT")
    then on_pkt p (ts ∷ cmd ∷ cols)
    else if text_eq cmd (codes "SESSION")
    then on_session p (ts ∷ cmd ∷ cols)
    else none
dispatch p _ = none

abbrev pub or_same : RxLineParser → Option RxLineParser → RxLineParser
or_same p none = p
or_same p (some q) = q

unfoldable pub feed_line : RxLineParser → Text → RxLineParser
feed_line p line = or_same p (dispatch p (split tab (strip line)))
