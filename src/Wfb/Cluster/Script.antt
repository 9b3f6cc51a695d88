-- ===== src/Wfb/Cluster/Script.antt =====
-- The script that a node runs (`render_node_script`), and the `ssh` command that carries it there.
use Prim.Native.String.{String}
use text.Mathlib.Text.{◌==◌ as str_eq}
use fpvd.Prelude.{
  ℕ, Bool, true, false, ◌&&◌, ◌||◌, Option, none, some, List, [], ◌∷◌, ◌++◌, map, or_else,
  if◌then◌else◌,
}
use fpvd.Prelude.Int.{pos}
use fpvd.Prelude.Float.{Float}
use fpvd.Prelude.Dict.{get_by}
use fpvd.Prelude.Show.{
  concat, join_with, show, show_ℤ, str_in, text_or_empty, is_blank, lstrip, rstrip, splitlines,
}
use fpvd.Wfb.Cards.{Card, TxPower, unset, off, dbm}
use fpvd.Wfb.Radio.{iw_args}
use fpvd.Wfb.Cluster.{ClusterPlan, Streams, injector_base}

-- The keys of `link` that the script reads.
pub record LinkRadio : Type 0 where
  pub width : Option ℕ
  pub region : Option String
  pub channel : Option ℕ

-- An f-string prints a missing region as None.
abbrev region_text : Option String → String
region_text none = "None"
region_text (some r) = r

abbrev pub preamble : List String
preamble =
    "#!/bin/sh" ∷ "set -em" ∷ "" ∷ "export LC_ALL=C" ∷ "" ∷ "exec 3<&0" ∷ "" ∷ "PIDS=\"\"" ∷ ""
    ∷ "_cleanup()" ∷ "{" ∷ "  [ -n \"$PIDS\" ] && kill -TERM $PIDS 2>/dev/null" ∷ "  exit 1" ∷ "}"
    ∷ "" ∷ "trap _cleanup EXIT HUP INT TERM" ∷ ""
    ∷ "for _p in $(ps | grep -E 'wfb_(rx|tx)' | grep -v grep | awk '{print $1}'); do"
    ∷ "  kill -9 $_p 2>/dev/null || true" ∷ "done" ∷ "" ∷ []

abbrev pub epilogue : List String
epilogue =
    "echo \"WFB-ng init done\"" ∷ "" ∷ "while :; do" ∷ "  for p in $PIDS; do"
    ∷ "    kill -0 $p 2>/dev/null || exit 1" ∷ "  done" ∷ "  sleep 1" ∷ "done" ∷ "" ∷ []

abbrev pub watchdog : List String
watchdog =
    "# Will fail in case of connection loss (reads fd 3 = the"
    ∷ "# saved SSH stdin; see the `exec 3<&0` note above)."
    ∷ "(sleep 1; exec cat <&3 > /dev/null) & PIDS=\"$PIDS $!\"" ∷ "" ∷ []

-- The children of one service.
abbrev pub rx_line : String → ℕ → ℕ → ℕ → String → String
rx_line server port radio_port link_id wlans = concat (
    "wfb_rx -f -c "
    ∷ server
    ∷ " -u "
    ∷ show port
    ∷ " -p "
    ∷ show radio_port
    ∷ " -i "
    ∷ show link_id
    ∷ " -R 2097152 "
    ∷ wlans
    ∷ " & PIDS=\"$PIDS $!\""
    ∷ [])

abbrev pub tx_line : ℕ → String → String
tx_line injector wlans =
    concat ("wfb_tx -I " ∷ show injector ∷ " -R 2097152 " ∷ wlans ∷ " & PIDS=\"$PIDS $!\"" ∷ [])

-- A dictionary's key that is missing raises KeyError.
abbrev pub rx_lines : Option ℕ → Option ℕ → String → ℕ → String → Option (List String)
rx_lines none port server link_id wlans = some []
rx_lines (some radio_port) none server link_id wlans = none
rx_lines (some radio_port) (some port) server link_id wlans =
    some (rx_line server port radio_port link_id wlans ∷ [])

abbrev pub tx_lines : Option ℕ → Option ℕ → String → Option (List String)
tx_lines none injector wlans = some []
tx_lines (some radio_port) none wlans = none
tx_lines (some radio_port) (some injector) wlans = some (tx_line injector wlans ∷ [])

abbrev pub append_lines : Option (List String) → Option (List String) → Option (List String)
append_lines (some a) (some b) = some (a ++ b)
append_lines _ _ = none

abbrev pub same_pair : String × String → String × String → Bool
same_pair a b = str_eq a.0 b.0 && str_eq a.1 b.1

abbrev is_none : Option ℕ → Bool
is_none none = true
is_none (some n) = false

-- Every service that the node takes part in.
unfoldable pub service_lines :
    String
    → String
    → ℕ
    → String
    → List (String × ℕ)
    → List ((String × String) × ℕ)
    → List (String × Streams)
    → Option (List String)
service_lines node server link_id wlans ports injectors [] = some []
service_lines node server link_id wlans ports injectors ((service, st) ∷ streams) =
    let rest = service_lines node server link_id wlans ports injectors streams in
    let head = concat ("# " ∷ service ∷ []) ∷ [] in
    let rx = rx_lines st.rx (get_by str_eq service ports) server link_id wlans in
    let tx = tx_lines st.tx (get_by same_pair (node, service) injectors) wlans in
    if is_none st.rx && is_none st.tx
    then rest
    else append_lines (some head)
        (append_lines rx (append_lines tx (append_lines (some ("" ∷ [])) rest)))

abbrev pub channel_lines : String → Option ℕ → ℕ → List String
channel_lines wlan none width = []
channel_lines wlan (some channel) width = join_with " " (iw_args wlan channel width) ∷ []

abbrev pub joined_lines : Option (List String) → Option String
joined_lines none = none
joined_lines (some lines) = some (join_with "\n" lines)

abbrev key_args : Option String → List String
key_args none = []
key_args (some key) = if is_blank key then [] else "-i" ∷ key ∷ []

abbrev host_text : Option String → String
host_text none = "None"
host_text (some h) = h

module _ {F : Type 0} ⦃fl : Float F⦄ where
  -- The snippets of the cards, each once.
  unfoldable pub init_lines : List String → List (Card F) → List String
  init_lines seen [] = []
  init_lines seen (card ∷ cards) =
      let s = lstrip (rstrip (text_or_empty card.init_script)) in
      let skipped = init_lines seen cards in
      let rest = init_lines (s ∷ seen) cards in
      if is_blank s || str_in s seen
      then skipped
      else "# custom init (per link.cards initScript)" ∷ splitlines s ++ "" ∷ rest

  abbrev pub power_lines : String → TxPower F → List String
  power_lines wlan unset = []
  power_lines wlan off = []
  power_lines wlan (dbm d) =
      concat (
        "iw dev "
        ∷ wlan
        ∷ " set txpower fixed "
        ∷ show_ℤ (fl.round (fl.mul d (fl.of_int (pos 100))))
        ∷ [])
      ∷ []

  abbrev pub card_lines : LinkRadio → Card F → List String
  card_lines link card =
      let wlan = card.iface in
      (concat ("# init " ∷ wlan ∷ [])
        ∷ concat (
            "if which nmcli > /dev/null && ! nmcli device show " ∷ wlan ∷ " | grep -q '(unmanaged)'"
            ∷ [])
        ∷ "then"
        ∷ concat ("  nmcli device set " ∷ wlan ∷ " managed no" ∷ [])
        ∷ "  sleep 1"
        ∷ "fi"
        ∷ ""
        ∷ concat ("ip link set " ∷ wlan ∷ " down" ∷ [])
        ∷ concat ("iw dev " ∷ wlan ∷ " set monitor otherbss" ∷ [])
        ∷ concat ("ip link set " ∷ wlan ∷ " up" ∷ [])
        ∷ [])
      ++ (channel_lines wlan link.channel (or_else link.width 20)
          ++ (power_lines wlan card.txpower_dbm ++ "" ∷ []))

  unfoldable pub all_card_lines : LinkRadio → List (Card F) → List String
  all_card_lines link [] = []
  all_card_lines link (card ∷ cards) = card_lines link card ++ all_card_lines link cards

  -- The lines before the services.
  abbrev pub setup_lines : List (Card F) → LinkRadio → List String
  setup_lines cards link =
      preamble
      ++ (init_lines [] cards
          ++ (concat ("iw reg set " ∷ region_text link.region ∷ [])
              ∷ ""
              ∷ all_card_lines link cards))

  -- `none` is a KeyError.
  unfoldable pub render_node_script :
      String
      → List (Card F)
      → ClusterPlan F
      → LinkRadio
      → ℕ
      → String
      → Bool
      → List (String × Streams)
      → Option String
  render_node_script node cards plan link link_id server ssh_mode streams =
      let wlans = join_with " " (map (λ c. c.iface) cards) in
      joined_lines (
        append_lines (some (setup_lines cards link)) (
          append_lines
            (service_lines node server link_id wlans plan.server_port
              (injector_base plan.allocations) streams)
            (some ((if ssh_mode then watchdog else []) ++ epilogue))))

  unfoldable pub ssh_argv : Card F → List String
  ssh_argv card =
      ("ssh"
        ∷ "-o"
        ∷ "BatchMode=yes"
        ∷ "-o"
        ∷ "ServerAliveInterval=5"
        ∷ "-o"
        ∷ "ServerAliveCountMax=3"
        ∷ "-o"
        ∷ "StrictHostKeyChecking=accept-new"
        ∷ "-p"
        ∷ show card.ssh_port
        ∷ [])
      ++ (key_args card.ssh_key
          ++ concat (card.ssh_user ∷ "@" ∷ host_text card.host ∷ []) ∷ "exec sh -s" ∷ [])
