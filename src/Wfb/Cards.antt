-- ===== src/Wfb/Cards.antt =====
-- gs/fpvdgs/wfb/cards.py: the cards of a configuration. A mapping of the configuration is a record of
-- the keys that the source reads; `none` is a key that is absent.
mod Tests
use Prim.Native.String.{String}
use fpvd.Prelude.{
  ℕ, Bool, true, false, not, Option, none, some, List, [], ◌∷◌, or_else, is_some, any, keep, map,
  if◌then◌else◌,
}

-- `txpower_dbm`: None, "off" or a number.
pub data TxPower (F : Type 0) : Type 0 where
  unset : TxPower F
  off : TxPower F
  dbm : F → TxPower F

pub record Card (F : Type 0) : Type 0 where
  pub host : Option String
  pub iface : String
  pub ssh_user : String
  pub ssh_port : ℕ
  pub ssh_key : Option String
  pub txpower_dbm : TxPower F
  pub init_script : Option String

-- A card object of the configuration.
pub record CardObject (F : Type 0) : Type 0 where
  pub host : Option String
  pub iface : Option String
  pub ssh_user : Option String
  pub ssh_port : Option ℕ
  pub ssh_key : Option String
  pub txpower_dbm : TxPower F
  pub init_script : Option String

pub data Entry (F : Type 0) : Type 0 where
  name : String → Entry F
  object : CardObject F → Entry F
  invalid : Entry F

-- `link.cards` and `link.wlans`: `none` is anything that is no list.
pub record Link (F : Type 0) : Type 0 where
  pub cards : Option (List (Entry F))
  pub wlans : Option (List (Entry F))

-- What `parse_cards` returns.
pub data Parsed (F : Type 0) : Type 0 where
  auto : Parsed F
  these : List (Card F) → Parsed F

module _ {F : Type 0} where
  abbrev pub is_local : Card F → Bool
  is_local c = not (is_some c.host)

  abbrev pub is_rx_only : Card F → Bool
  is_rx_only c = elim c.txpower_dbm [ unset ↦ false | off ↦ true | dbm d ↦ false ]

  abbrev pub local_card : String → Card F
  local_card iface = record {
    host = none;
    iface = iface;
    ssh_user = "root";
    ssh_port = 22;
    ssh_key = none;
    txpower_dbm = unset;
    init_script = none;
  }

  -- `_card_from_dict`; `none` is a ValueError.
  abbrev pub card_from_object : CardObject F → Option (Card F)
  card_from_object d = elim d.iface [
    | none ↦ none
    | some iface ↦ some (record {
      host = d.host;
      iface = iface;
      ssh_user = or_else d.ssh_user "root";
      ssh_port = or_else d.ssh_port 22;
      ssh_key = d.ssh_key;
      txpower_dbm = d.txpower_dbm;
      init_script = d.init_script;
    })
  ]

  abbrev pub parse_entry : Entry F → Option (Card F)
  parse_entry (name iface) = some (local_card iface)
  parse_entry (object d) = card_from_object d
  parse_entry invalid = none

  abbrev pub cons_card : Option (Card F) → Option (List (Card F)) → Option (List (Card F))
  cons_card (some c) (some cards) = some (c ∷ cards)
  cons_card _ _ = none

  -- `_parse_entries`
  unfoldable pub parse_entries : List (Entry F) → Option (List (Card F))
  parse_entries [] = some []
  parse_entries (e ∷ entries) = cons_card (parse_entry e) (parse_entries entries)

  abbrev pub has_remote : List (Card F) → Bool
  has_remote cards = any (λ c. not (is_local c)) cards

  abbrev pub these_of : Option (List (Card F)) → Option (Parsed F)
  these_of none = none
  these_of (some cards) = some (these cards)

  -- The legacy list takes no remote card.
  abbrev pub legacy : Option (List (Card F)) → Option (Parsed F)
  legacy none = none
  legacy (some cards) = if has_remote cards then none else some (these cards)

  unfoldable pub parse_cards : Link F → Option (Parsed F)
  parse_cards link = elim link.cards [
    | some entries ↦ these_of (parse_entries entries)
    | none ↦ elim link.wlans [ some entries ↦ legacy (parse_entries entries) | none ↦ some auto ]
  ]

  abbrev pub expand : List String → Option (Parsed F) → Option (List (Card F))
  expand nics none = none
  expand nics (some auto) = some (map local_card nics)
  expand nics (some (these cards)) = some cards

  -- `nics` is what the detector finds.
  unfoldable pub resolve_cards : List String → Link F → Option (List (Card F))
  resolve_cards nics link = expand nics (parse_cards link)

  abbrev pub local_ifaces : List (Card F) → List String
  local_ifaces cards = map (λ c. c.iface) (keep is_local cards)

  abbrev pub remote_cards : List (Card F) → List (Card F)
  remote_cards cards = keep (λ c. not (is_local c)) cards
