-- ===== src/Wfb/StatsHub.antt =====
-- gs/fpvdgs/wfb/aggregator.py: `StatsHub`, which takes the windows of the children, merges them, runs
-- the antenna selection and tells its listeners and subscribers. A callback is a number; `calls` is
-- what the callbacks were given, the oldest first. Subscriptions are kept in the order of their ids,
-- also those that are no longer listed. An exception of a callback is logged and changes nothing.
pub mod Merge
pub mod Window
pub mod Averages
pub mod Reports
pub mod Delivery
pub mod Closing
mod Tests
use Prim.Native.String.{String}
use text.Mathlib.Text.{◌==◌ as str_eq}
use fpvd.Prelude.{
  ℕ, zero, suc, ◌+◌, ◌==◌, Bool, true, false, ◌&&◌, not, Option, none, some, List, [], ◌∷◌, ◌++◌,
  map, ltb, min, if◌then◌else◌, is_some, any, push_bounded, length,
}
use fpvd.Prelude.Int.{ℤ, pos, negsuc, ◌-ℤ◌, ltb_ℤ, leb_ℤ}
use fpvd.Prelude.Dict.{Dict, put_by}
use fpvd.Prelude.Float.{Float}
use fpvd.Wfb.TxSelector.{TxSelector, AntStats, select}
use fpvd.Wfb.Lineproto.Rx.{Session}
use fpvd.Wfb.StatsHub.Merge.{AntWindow, stats_agg}

-- The window values of the counters that the hub reads. The other counters of an event, and its
-- frequency, bandwidth and EVM, are passed on unread, and are left out.
pub record Packets : Type 0 where
  pub dec_err : ℕ
  pub bad : ℕ
  pub lost : ℕ
  pub fec_rec : ℕ

abbrev pub Ants : Type 0
Ants = List (ℕ × AntWindow)

pub data Event (F : Type 0) : Type 0 where
  rx_event : F → String → Packets → Ants → Option Session → Option ℕ → Event F
  session_event : F → String → Session → Event F
  tx_event : F → String → List (String × ℕ) → Event F

pub record Rssi : Type 0 where
  pub mav_rssi : ℤ
  pub mav_noise : ℤ
  pub rx_errors : ℕ
  pub rx_fec : ℕ
  pub flags : ℕ

pub data Call : Type 0 where
  raw_rx : ℕ → String → Packets → Ants → Option Session → Option ℕ → Call
  raw_session : ℕ → String → Session → Call
  raw_tx : ℕ → String → List (String × ℕ) → Call
  ant_sel : ℕ → Option ℕ → Call
  rssi : ℕ → Rssi → Call

-- `seen`: what `on_event` was given. `loop_open`: the consumer's loop takes calls. `listed`: the hub has the subscription in `_subs`.
pub record Subscription (F : Type 0) : Type 0 where
  pub queue : List (Event F)
  pub seen : List (Event F)
  pub closed_event : Bool
  pub loop_open : Bool
  pub listed : Bool

pub record StatsHub (F : Type 0) : Type 0 where
  pub txsel : TxSelector F
  pub closed : Bool
  pub subs : List (Subscription F)
  pub rssi_cbs : List ℕ
  pub ant_sel_cbs : List ℕ
  pub raw_listeners : List ℕ
  pub cur : List (String × (Ants × Packets))
  pub sessions : List (String × Session)
  pub calls : List Call

abbrev pub keep_session :
    String → Option Session → List (String × Session) → List (String × Session)
keep_session child none sessions = sessions
keep_session child (some s) sessions = put_by str_eq child s sessions

-- `list.remove`, where the item may be missing.
abbrev pub remove_first : ℕ → List ℕ → List ℕ
remove_first x [] = []
remove_first x (y ∷ ys) = if x == y then ys else y ∷ remove_first x ys

-- `child_id -> (ant, packets)`
abbrev pub Windows : Type 0
Windows = List (String × (Ants × Packets))

abbrev put_window : String → Ants → Packets → Windows → Windows
put_window child ants packets cur = put_by {V = Ants × Packets} str_eq child (ants, packets) cur

module _ {F : Type 0} where
  -- `_push`: an event for a consumer whose loop is closed ends the subscription.
  abbrev pub push : Event F → Subscription F → Subscription F
  push ev sub = record sub { queue = push_bounded 256 sub.queue ev; listed = sub.loop_open }

  abbrev pub push_listed : Event F → Subscription F → Subscription F
  push_listed ev sub = if sub.listed then push ev sub else sub

  unfoldable pub publish : StatsHub F → Event F → StatsHub F
  publish hub ev = record hub { subs = map (push_listed ev) hub.subs }

  abbrev pub called : StatsHub F → List Call → StatsHub F
  called hub calls = record hub { calls = hub.calls ++ calls }

  -- The time is what the hub's clock says at the call.
  unfoldable pub update_rx_stats :
      StatsHub F → F → String → Packets → Ants → Option Session → StatsHub F
  update_rx_stats hub time child packets ants session =
      let w = hub.txsel.current in
      let kept = record hub {
        cur = put_window child ants packets hub.cur;
        sessions = keep_session child session hub.sessions;
      } in
      called (publish kept (rx_event time child packets ants session w))
        (map (λ cb. raw_rx cb child packets ants session w) hub.raw_listeners)

  unfoldable pub process_new_session : StatsHub F → F → String → Session → StatsHub F
  process_new_session hub time child session =
      called
        (publish (record hub { sessions = put_by str_eq child session hub.sessions })
          (session_event time child session))
        (map (λ cb. raw_session cb child session) hub.raw_listeners)

  unfoldable pub update_tx_stats : StatsHub F → F → String → List (String × ℕ) → StatsHub F
  update_tx_stats hub time child packets =
      called (publish hub (tx_event time child packets))
        (map (λ cb. raw_tx cb child packets) hub.raw_listeners)

  -- `_drain`, of the subscription at a place: the queue goes to `on_event`.
  abbrev pub at :
      ℕ → (Subscription F → Subscription F) → List (Subscription F) → List (Subscription F)
  at i f [] = []
  at zero f (s ∷ subs) = f s ∷ subs
  at (suc i) f (s ∷ subs) = s ∷ at i f subs

  abbrev pub drained : Subscription F → Subscription F
  drained s = record s { queue = []; seen = s.seen ++ s.queue }

  unfoldable pub drain : StatsHub F → ℕ → StatsHub F
  drain hub i = record hub { subs = at i drained hub.subs }

  -- `subscribe` of a consumer on its own open loop, which has seen some events.
  abbrev pub new_subscription : Bool → List (Event F) → Subscription F
  new_subscription closed seen = record {
    queue = [];
    seen = seen;
    closed_event = closed;
    loop_open = true;
    listed = not closed;
  }

  unfoldable pub subscribe : StatsHub F → List (Event F) → StatsHub F
  subscribe hub seen = record hub { subs = hub.subs ++ new_subscription hub.closed seen ∷ [] }

  -- `NativeStatsSource.run`, up to its wait: it replays the sessions to its consumer.
  unfoldable pub run_source : StatsHub F → F → StatsHub F
  run_source hub time = subscribe hub (map (λ e. session_event time e.0 e.1) hub.sessions)

  unfoldable pub unsubscribe : StatsHub F → ℕ → StatsHub F
  unsubscribe hub i = record hub { subs = at i (λ s. record s { listed = false }) hub.subs }

  -- The consumer's loop is closed.
  unfoldable pub close_loop : StatsHub F → ℕ → StatsHub F
  close_loop hub i = record hub { subs = at i (λ s. record s { loop_open = false }) hub.subs }

  -- `close` wakes every listed consumer whose loop is open; a second one does nothing.
  abbrev pub wake : Subscription F → Subscription F
  wake s = if s.listed && s.loop_open then record s { closed_event = true } else s

  unfoldable pub close : StatsHub F → StatsHub F
  close hub = if hub.closed then hub else record hub { closed = true; subs = map wake hub.subs }

  unfoldable pub add_raw_listener : StatsHub F → ℕ → StatsHub F
  add_raw_listener hub cb = record hub { raw_listeners = hub.raw_listeners ++ cb ∷ [] }

  unfoldable pub remove_raw_listener : StatsHub F → ℕ → StatsHub F
  remove_raw_listener hub cb = record hub { raw_listeners = remove_first cb hub.raw_listeners }

  unfoldable pub add_rssi_cb : StatsHub F → ℕ → StatsHub F
  add_rssi_cb hub cb = record hub { rssi_cbs = hub.rssi_cbs ++ cb ∷ [] }

  -- The callback is told the current antenna at once.
  unfoldable pub add_ant_sel_cb : StatsHub F → ℕ → StatsHub F
  add_ant_sel_cb hub cb =
      called (record hub { ant_sel_cbs = hub.ant_sel_cbs ++ cb ∷ [] })
        (ant_sel cb hub.txsel.current ∷ [])
