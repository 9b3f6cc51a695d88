-- ===== src/Wfb/Lineproto/Tests.antt =====
-- The parsers at lines that wfb_rx and wfb_tx print.
use mathlib.Core.Bool.{Bool}
use fpvd.Prelude.{ℕ, ◌≡◌, refl, true, none, some, List, [], ◌∷◌, map, arith, take}
use fpvd.Prelude.Int.{ℤ, pos, negsuc}
use fpvd.Prelude.Dict.{put_by}
use fpvd.Prelude.Text.{Text, codes, strip, split, cut_last, int_of, ints_of, digits_from}
use fpvd.Wfb.Lineproto.{zip_pairs, cumulate}
use fpvd.Wfb.Lineproto.Rx
use fpvd.Wfb.Lineproto.Rx.{
  RxLineParser, Session, AntKey, window, session_changed, on_rx_ant, on_pkt, on_session, dispatch,
  feed_line,
}
use fpvd.Wfb.Lineproto.Tx
use fpvd.Wfb.Lineproto.Tx.{TxLineParser, obey}
use fpvd.Wfb.Lineproto.Totals.{pkt_line, feed_line-pkt_line}
use fpvd.Wfb.Lineproto.Sums.{Adds, feed_lines, feed_lines-Adds}

abbrev ant_line : Text
ant_line = codes "1000\tRX_ANT\t5825:1:20\t10a\t5:-61:-60:-58:20:22:25\n"

abbrev ant_values : List ℤ
ant_values =
    pos 5
    ∷ negsuc 60
    ∷ negsuc 59
    ∷ negsuc 57
    ∷ pos 20
    ∷ pos 22
    ∷ pos 25
    ∷ negsuc 0
    ∷ negsuc 0
    ∷ negsuc 0
    ∷ []

abbrev after_ant : RxLineParser
after_ant = record {
  ant = (record { freq = pos 5825; mcs = pos 1; bw = pos 20; ant_id = pos 266 }, ant_values) ∷ [];
  cum = none;
  session = none;
  calls = [];
}

-- An antenna of a wfb_rx that knows no EVM.
rx_ant : feed_line Rx.new ant_line ≡ after_ant
unfolding feed_line dispatch on_rx_ant strip split int_of ints_of digits_from put_by
rx_ant = refl

-- Too few counters: the line is dropped.
short : feed_line after_ant (codes "1\tPKT\t1:2:3") ≡ after_ant
unfolding feed_line dispatch on_pkt strip split int_of ints_of digits_from
short = refl

abbrev swfec : Session
swfec = record {
  fec_type = "swfec";
  fec_k = pos 30;
  fec_n = pos 12;
  epoch = pos 7;
  contract_version = pos 3;
}

-- A session is told once.
sessions :
    feed_line (feed_line Rx.new (codes "1\tSESSION\t7:2:30:12:3")) (codes "2\tSESSION\t7:2:30:12:3")
    ≡ record Rx.new { session = some swfec; calls = session_changed swfec ∷ [] }
unfolding feed_line dispatch on_session strip split int_of ints_of digits_from
sessions = refl

abbrev counters : List ℕ
counters = 2 ∷ 3 ∷ 4 ∷ 5 ∷ 6 ∷ 7 ∷ 8 ∷ 9 ∷ 10 ∷ 11 ∷ 12 ∷ []

feed_line-pkt_line_example :
    let cs = take 11 (map pos (1 ∷ counters)) in
    feed_line after_ant (pkt_line 1000 (1 ∷ counters)) ≡ record after_ant {
      ant = [];
      cum = some (cumulate cs none);
      calls = window (zip_pairs cs (cumulate cs none)) after_ant.ant none ∷ [];
    }
feed_line-pkt_line_example = feed_line-pkt_line after_ant 1000 1 counters (ground arith)

abbrev stream : List Text
stream = codes "noise" ∷ pkt_line 1 (1 ∷ counters) ∷ ant_line ∷ pkt_line 2 (5 ∷ counters) ∷ []

feed_lines-Adds_example : Adds none (feed_lines Rx.new stream).calls (feed_lines Rx.new stream).cum
feed_lines-Adds_example = feed_lines-Adds stream

-- The handshake of a wfb_tx.
abbrev silent : TxLineParser
silent = record {
  ports = [];
  unix_sockets = [];
  control_port = none;
  handshake_done = Bool.false;
  ant = [];
  cum = none;
  calls = [];
}

handshake :
    Tx.feed_line
      (Tx.feed_line
        (Tx.feed_line silent (codes "1\tLISTEN_UNIX\tmavlink:tx:1f"))
        (codes "2\tPKT\t1"))
      (codes "3\tLISTEN_UNIX_END")
    ≡ record silent {
      unix_sockets = (pos 31, codes "mavlink:tx") ∷ [];
      handshake_done = true;
      calls = Tx.handshake ∷ [];
    }
unfolding Tx.feed_line obey strip split cut_last int_of ints_of digits_from put_by
handshake = refl
