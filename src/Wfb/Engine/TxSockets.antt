-- ===== src/Wfb/Engine/TxSockets.antt =====
-- The sockets that the uplinks send to. A respawned transmitter has a new parser, whose sockets are
-- there only when its handshake is over. A parser is told from another by its number. Which connects
-- succeed is an argument. Of Mavlink's socket the name is kept, none where it has no connection.
use Prim.Native.String.{String}
use text.Mathlib.Text.{◌==◌ as str_eq}
use fpvd.Prelude.{
  ℕ, Bool, true, false, ◌||◌, Option, none, some, List, [], ◌∷◌, ◌==◌, map, if◌then◌else◌,
}
use fpvd.Prelude.Dict.{get_by, put_by}
use fpvd.Prelude.Float.{Float}
use fpvd.Wfb.Tunnel.{TunnelService, set_tx_socket, set_all_tx_sockets}

pub record TxParser : Type 0 where
  pub id : ℕ
  pub unix_sockets : List (ℕ × String)

-- The `tx_parser` of each child.
abbrev pub Children : Type 0
Children = List (String × Option TxParser)

-- What the services send to, and the parsers that this was set up for.
pub record Wiring (F : Type 0) : Type 0 where
  pub tx_parser_ids : List (String × ℕ)
  pub mav_socket : Option String
  pub tunnel : TunnelService F

-- Which connects of a tick succeed: Mavlink's, the tunnel's to the selected socket, and those to all.
pub record Connects : Type 0 where
  pub mavlink : String → Bool
  pub selected : String → Bool
  pub all : String → Bool

-- A child that is absent has no parser.
abbrev pub child_parser : String → Children → Option TxParser
child_parser name children = elim (get_by str_eq name children) [
  | none ↦ none
  | some parser ↦ parser
]

abbrev pub values : List (ℕ × String) → List String
values sockets = map (λ e. e.1) sockets

abbrev pub first_of : List (ℕ × String) → Option String
first_of [] = none
first_of (e ∷ sockets) = some e.1

abbrev pub or_first : List (ℕ × String) → Option String → Option String
or_first sockets none = first_of sockets
or_first sockets (some name) = some name

abbrev pub chosen : Option ℕ → List (ℕ × String) → Option String
chosen none sockets = none
chosen (some wlan_id) sockets = get_by ◌==◌ wlan_id sockets

-- `_tx_socket_for`: the first socket where the selection has none.
abbrev pub tx_socket_for : Option TxParser → Option ℕ → Option String
tx_socket_for none wlan_id = none
tx_socket_for (some parser) wlan_id =
    or_first parser.unix_sockets (chosen wlan_id parser.unix_sockets)

-- Mavlink's `set_tx_socket`, which drops its connection before it makes the new one.
abbrev pub mav_set_tx_socket : (String → Bool) → Option String → Option String
mav_set_tx_socket can none = none
mav_set_tx_socket can (some name) = if can name then some name else none

abbrev pub is_empty : List (ℕ × String) → Bool
is_empty [] = true
is_empty (e ∷ sockets) = false

abbrev pub is_id : ℕ → Option ℕ → Bool
is_id i none = false
is_id i (some j) = i == j

-- The parser of a leg whose sockets are there and that was not wired yet.
abbrev pub respawned : Option TxParser → Option ℕ → Option ℕ
respawned none known = none
respawned (some parser) known =
    if is_empty parser.unix_sockets || is_id parser.id known then none else some parser.id

abbrev pub commit : String → Option ℕ → List (String × ℕ) → List (String × ℕ)
commit name none ids = ids
commit name (some i) ids = put_by str_eq name i ids

abbrev pub is_changed : Option ℕ → Option ℕ → Bool
is_changed none none = false
is_changed _ _ = true

module _ {F : Type 0} ⦃fl : Float F⦄ where
  unfoldable pub apply_tx_selection : Connects → Children → Option ℕ → Wiring F → Wiring F
  apply_tx_selection c children wlan_id w = record w {
    mav_socket =
        mav_set_tx_socket c.mavlink (tx_socket_for (child_parser "mavlink_tx" children) wlan_id);
    tunnel =
        set_tx_socket c.selected w.tunnel
          (tx_socket_for (child_parser "tunnel_tx" children) wlan_id);
  }

  abbrev pub set_all : Connects → Option TxParser → TunnelService F → TunnelService F
  set_all c none t = t
  set_all c (some parser) t = set_all_tx_sockets c.all t (values parser.unix_sockets)

  -- `_check_tx_respawns`, with the current selection. A parser is committed before its sockets are
  -- connected.
  unfoldable pub check_tx_respawns : Connects → Children → Option ℕ → Wiring F → Wiring F
  check_tx_respawns c children current w =
      let mav =
        respawned (child_parser "mavlink_tx" children)
          (get_by str_eq "mavlink_tx" w.tx_parser_ids) in
      let tun =
        respawned (child_parser "tunnel_tx" children) (get_by str_eq "tunnel_tx" w.tx_parser_ids) in
      let ids = commit "tunnel_tx" tun (commit "mavlink_tx" mav w.tx_parser_ids) in
      let v = apply_tx_selection c children current (record w { tx_parser_ids = ids }) in
      if is_changed mav tun
      then record v { tunnel = set_all c (child_parser "tunnel_tx" children) v.tunnel }
      else w
