-- ===== src/Dynlink/Signals.antt =====
-- gs/fpvdgs/dynlink/signals.py: the snapshot that the policy reads, and the records that it is folded
-- from. The aggregator is in the child module `Aggregator`.
pub mod Aggregator
pub mod Windows
pub mod Rates
pub mod FixedShares
mod Tests
use fpvd.Prelude.{ℕ, Bool, false, Option, none, List}
use fpvd.Prelude.Int.{ℤ}
use fpvd.Prelude.Float.{Float}
use fpvd.Prelude.Dict.{Dict}

-- `SessionInfo` of stats_client.py, its numbers.
pub record SessionInfo : Type 0 where
  pub fec_k : ℕ
  pub fec_n : ℕ
  pub epoch : ℕ
  pub contract_version : ℕ

-- An entry of `Signals.probe`.
pub record Reading (F : Type 0) : Type 0 where
  pub per : Option F
  pub fresh : Bool

pub record Signals (F : Type 0) : Type 0 where
  pub rssi_min_w : Option F
  pub rssi_avg_w : Option F
  pub rssi_max_w : Option F
  pub mcs_w : Option ℕ
  pub snr_w : Option F
  pub evm_w : Option F
  pub evm_lo_w : Option F
  pub evm_min_w : Option F
  pub residual_loss_w : F
  pub fec_work_rate_w : F
  pub packet_rate_w : F
  pub burst_rate_w : F
  pub holdoff_rate_w : F
  pub late_rate_w : F
  pub link_starved_w : Bool
  pub tap_active : Bool
  pub rssi : Option F
  pub rssi_raw : Option F
  pub snr : Option F
  pub fec_work : F
  pub burst_rate : F
  pub holdoff_rate : F
  pub late_rate : F
  pub session : Option SessionInfo
  pub timestamp : F
  pub windows_seen : ℕ
  pub ant_count : ℕ
  pub probe : Option (Dict (Reading F))

-- The default snapshot.
abbrev pub no_signals : {F : Type 0} → ⦃fl : Float F⦄ → Signals F
no_signals ⦃fl⦄ = record {
  rssi_min_w = none;
  rssi_avg_w = none;
  rssi_max_w = none;
  mcs_w = none;
  snr_w = none;
  evm_w = none;
  evm_lo_w = none;
  evm_min_w = none;
  residual_loss_w = fl.decimal 0 0;
  fec_work_rate_w = fl.decimal 0 0;
  packet_rate_w = fl.decimal 0 0;
  burst_rate_w = fl.decimal 0 0;
  holdoff_rate_w = fl.decimal 0 0;
  late_rate_w = fl.decimal 0 0;
  link_starved_w = false;
  tap_active = false;
  rssi = none;
  rssi_raw = none;
  snr = none;
  fec_work = fl.decimal 0 0;
  burst_rate = fl.decimal 0 0;
  holdoff_rate = fl.decimal 0 0;
  late_rate = fl.decimal 0 0;
  session = none;
  timestamp = fl.decimal 0 0;
  windows_seen = 0;
  ant_count = 0;
  probe = none;
}

-- `RxAnt` of stats_client.py, the fields that the aggregator reads.
pub record RxAnt : Type 0 where
  pub ant : ℕ
  pub mcs : ℕ
  pub rssi_min : ℤ
  pub rssi_avg : ℤ
  pub snr_avg : ℤ
  pub evm_min : ℤ
  pub evm_avg : ℤ

-- The counters of a window that the aggregator reads; one that is missing is `none`.
pub record Packets : Type 0 where
  pub out : Option ℕ
  pub lost : Option ℕ
  pub fec_rec : Option ℕ
  pub payload : Option ℕ  -- the counter `data`
  pub bursts_rec : Option ℕ
  pub holdoff : Option ℕ
  pub late_deadline : Option ℕ

-- `RxEvent` of stats_client.py.
pub record RxEvent (F : Type 0) : Type 0 where
  pub timestamp : F
  pub packets_window : Packets
  pub rx_ant_stats : List RxAnt
  pub session : Option SessionInfo

-- A MICRO record of the tap.
pub record Micro : Type 0 where
  pub pkt_data : ℕ
  pub pkt_fec_rec : ℕ
  pub pkt_lost : ℕ
  pub pkt_out : ℕ
  pub rx_ant_stats : List RxAnt
