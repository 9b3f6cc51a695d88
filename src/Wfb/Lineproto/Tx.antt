-- ===== src/Wfb/Lineproto/Tx.antt =====
-- `TxLineParser`. A line that it does not know is skipped without a word.
use fpvd.Prelude.{Bool, true, Option, none, some, List, [], ◌∷◌, ◌++◌, ◌==◌, if◌then◌else◌, length}
use fpvd.Prelude.Int.{ℤ, eq_ℤ}
use fpvd.Prelude.Dict.{put_by}
use fpvd.Prelude.Text.{Text, codes, text_eq, strip, split, cut, cut_last, int_of}
use fpvd.Wfb.Lineproto.{tab, colon, cumulate, zip_pairs, ints_in, tx_pkt_keys}

pub data Call : Type 0 where
  handshake : Call
  window : List (ℤ × ℤ) → List (ℤ × List ℤ) → Call

pub record TxLineParser : Type 0 where
  pub ports : List (ℤ × ℤ)
  pub unix_sockets : List (ℤ × Text)
  pub control_port : Option ℤ
  pub handshake_done : Bool
  pub ant : List (ℤ × List ℤ)
  pub cum : Option (List ℤ)
  pub calls : List Call

-- `_finish_handshake`
abbrev pub finish_handshake : TxLineParser → TxLineParser
finish_handshake p = record p { handshake_done = true; calls = p.calls ++ handshake ∷ [] }

abbrev pub put_port : TxLineParser → Option ℤ → Option ℤ → TxLineParser
put_port p (some wlan_id) (some port) = record p { ports = put_by eq_ℤ wlan_id port p.ports }
put_port p _ _ = p

abbrev pub listen_udp : TxLineParser → Option (Text × Text) → TxLineParser
listen_udp p none = p
listen_udp p (some (port, wlan_id)) = put_port p (int_of 16 wlan_id) (int_of 10 port)

abbrev pub put_socket : TxLineParser → Text → Option ℤ → TxLineParser
put_socket p sock none = p
put_socket p sock (some wlan_id) = record p {
  unix_sockets = put_by eq_ℤ wlan_id sock p.unix_sockets;
}

abbrev pub listen_unix : TxLineParser → Option (Text × Text) → TxLineParser
listen_unix p none = p
listen_unix p (some (sock, wlan_id)) = put_socket p sock (int_of 16 wlan_id)

abbrev pub set_control : TxLineParser → Option ℤ → TxLineParser
set_control p none = p
set_control p (some port) = record p { control_port = some port }

abbrev pub store_latency : TxLineParser → Option ℤ → Option (List ℤ) → TxLineParser
store_latency p (some ant_id) (some vals) = record p { ant = put_by eq_ℤ ant_id vals p.ant }
store_latency p _ _ = p

abbrev pub tx_ant : TxLineParser → List Text → TxLineParser
tx_ant p (ant_id ∷ vals ∷ []) = store_latency p (int_of 16 ant_id) (ints_in vals)
tx_ant p _ = p

abbrev pub close_window : TxLineParser → List ℤ → TxLineParser
close_window p counters =
    let cum = cumulate counters p.cum in
    record p {
      ant = [];
      cum = some cum;
      calls = p.calls ++ window (zip_pairs counters cum) p.ant ∷ [];
    }

abbrev pub count_window : TxLineParser → Option (List ℤ) → TxLineParser
count_window p none = p
count_window p (some counters) =
    if length counters == tx_pkt_keys then close_window p counters else p

abbrev pub pkt : TxLineParser → List Text → TxLineParser
pkt p (counters ∷ []) = count_window p (ints_in counters)
pkt p _ = p

-- A command that wants one column, with another number of them, is skipped.
abbrev pub with_one : List Text → (Text → TxLineParser) → TxLineParser → TxLineParser
with_one (column ∷ []) f p = f column
with_one _ f p = p

-- The command and the columns after it.
unfoldable pub obey : TxLineParser → Text → List Text → TxLineParser
obey p cmd cols =
    if text_eq cmd (codes "LISTEN_UDP")
    then with_one cols (λ c. listen_udp p (cut colon c)) p
    else if text_eq cmd (codes "LISTEN_UDP_END")
    then finish_handshake p
    else if text_eq cmd (codes "LISTEN_UNIX")
    then with_one cols (λ c. listen_unix p (cut_last colon c)) p
    else if text_eq cmd (codes "LISTEN_UNIX_END")
    then finish_handshake p
    else if text_eq cmd (codes "LISTEN_UDP_CONTROL")
    then with_one cols (λ c. set_control p (int_of 10 c)) p
    else if text_eq cmd (codes "TX_ANT")
    then tx_ant p cols
    else if text_eq cmd (codes "PKT")
    then pkt p cols
    else p

abbrev pub dispatch : TxLineParser → List Text → TxLineParser
dispatch p (ts ∷ cmd ∷ cols) = obey p cmd cols
dispatch p _ = p

unfoldable pub feed_line : TxLineParser → Text → TxLineParser
feed_line p line = dispatch p (split tab (strip line))
