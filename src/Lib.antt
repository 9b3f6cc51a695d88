-- ===== src/Lib.antt =====
-- The fpvd ground station: the core of its link control and of its supervision.
--
-- gs/fpvdgs is a daemon that runs the ground side of a video link. Its link controller (dynlink) reads
-- statistics, picks the modulation rung (MCS) of the drone and learns at which SNR each rung fails. Its
-- data plane (wfb) supervises the radio processes and bridges a tunnel over them. Its connection
-- monitor decides when the drone is reachable and tells the other parts so on an event bus.
--
-- Parts, and the files that model them:
--
--   Dynlink.Knee, LearnedPrior   gs/fpvdgs/dynlink/learned_prior.py. `KneeModel` is a record of two
--     lists, `observe`, `rung_unviable`, `rung_confident`, `to_dict` and `load_dict` its functions;
--     `LearnedPrior` is the facade with its count of observations and what it writes.
--   Dynlink.Selector, Selector.Select   gs/fpvdgs/dynlink/policy.py, class `LeadingSelector`. `select` is
--     the stages of its body, in order: `begin`, `demote`, `note_clean` and `promote` with `routes`.
--     `none` is a KeyError.
--   Dynlink.Policy   the same file, class `Policy`. `tick` is `prepare` (the cooldown, the predictive and
--     the proactive demote, the probe), `select`, and `finish` (what is learned); `loss_event` is the
--     fast path. Policy calls the selector and the learned prior.
--   Dynlink.Signals   gs/fpvdgs/dynlink/signals.py: the snapshot `Signals` that the policy reads, and the
--     aggregator that folds 100 ms windows and the tap's records into it.
--   Dynlink.Wire   gs/fpvdgs/dynlink/wire.py; `binascii.crc32` is a parameter.
--   Dynlink.Defaults, Samples   the defaults of the configuration classes, and data for the tests.
--   Connection   gs/fpvdgs/connection_monitor.py: `evaluate` is `_evaluate` on what it observes.
--   Supervision.Process, Child, Budget   gs/fpvdgs/runner_supervisor.py and gs/fpvdgs/wfb/children.py: the
--     two supervisors of processes, which share the crash budget.
--   Wfb.AggQueue   gs/fpvdgs/wfb/agg_queue.py.
--   Wfb.Tunnel   gs/fpvdgs/wfb/tunnel.py; its uplink puts packets into an aggregating queue.
--   Wfb.TxSelector   gs/fpvdgs/wfb/txsel.py.
--   Wfb.Mavlink   gs/fpvdgs/wfb/mavproxy.py, the framer `mavlink_parser_gen`.
--   Wfb.Lineproto   gs/fpvdgs/wfb/lineproto.py: the parsers of what wfb_rx and wfb_tx print. `feed_line`
--     is one line, given as its code points.
--   Wfb.StatsHub   gs/fpvdgs/wfb/aggregator.py: `update_rx_stats`, `process_new_session` and
--     `update_tx_stats` take what the parsers report; Merge and Window are the sums of a window; the
--     queues of the subscriptions are drained and closed by the methods' names.
--   Wfb.Cards, Cluster   gs/fpvdgs/wfb/cards.py and cluster.py: the cards of the configuration,
--     `plan_cluster`, and in Cluster.Script and Cluster.Session `render_node_script` and `NodeSession`.
--   Wfb.Graph, Graph.Remote   gs/fpvdgs/wfb/graph.py: `build_graph` and `build_graph_remote`, which reads
--     the plan and renders the scripts. Wfb.Radio is the part of gs/fpvdgs/radio.py that a script uses.
--   Wfb.Engine   gs/fpvdgs/wfb/engine.py: Prepare is `_setup` up to the graph, Setup the rest of it and
--     `_teardown`, Lifecycle `start`, `stop` and `restart`, Nodes `_on_node_state`, TxSockets
--     `_apply_tx_selection` and `_check_tx_respawns`, which call Mavlink's `set_tx_socket` and the
--     socket operations of Wfb.Tunnel. The engine makes the plan and the graph, and starts the children
--     and the sessions; these are numbers, names and outcomes here.
--   Probe, Probe.Feed   gs/fpvdgs/probe/parser.py and feed.py: `parse_line`, `McsAggregator` and the
--     `ProbeFeed` whose reports the policy's gates read.
--   Prelude   what the parts share: numbers, lists, dictionaries, texts, and `Float`.
--
-- How the code is represented. A class is a record and a method a function from the record to the new
-- one. An exception is `none`. A float is an element of any type with the operations of the record
-- `Float`; theorems that need laws of the order name them as hypotheses, and `Prelude.Fixed` is an
-- instance in which everything runs. A text that is parsed is the list of its code points, a text
-- that is only joined and compared is a native string. A callback is a number, and a call of it a
-- value that the operation returns. Rungs, counters and bytes are native numbers: no rung is
-- negative in the code either, since `commit` and the callers clamp at 0. A dictionary is an
-- association list. A log text is kept as the values that it is formatted from. What comes from
-- outside (the clock, answers, the outcome of a spawn or a connect, the file system) is an argument.
--
-- Loops. The loop of `unpack_batch` runs on fuel, the length of the batch, and each turn that goes on takes
-- two bytes or more. The framer's inner loop runs on the number of bytes that are left, and takes one or
-- more a turn. The loops of the watchers run over the attempts that are observed. All others are recursion on
-- a list.
--
-- Not modelled: threads, locks, sockets and the event loop themselves; the flight log, which the
-- daemon only writes; the event loop of the engine, the HTTP interface and the configuration
-- store, the receiving sockets of the Mavlink proxy and its injected radio status; the drone's daemon, which is
-- another program.
pub mod Prelude
pub mod Connection
pub mod Dynlink
pub mod Supervision
pub mod Probe
pub mod Wfb
