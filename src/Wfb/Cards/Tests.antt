-- ===== src/Wfb/Cards/Tests.antt =====
-- Configurations of cards.
use fpvd.Prelude.{◌≡◌, refl, none, some, [], ◌∷◌}
use fpvd.Prelude.Int.{ℤ}
use fpvd.Wfb.Cards.{
  CardObject, name, object, unset, local_card, parse_entries, parse_cards, resolve_cards,
}

abbrev remote : CardObject ℤ
remote = record {
  host = some "10.0.0.2";
  iface = some "wlan2";
  ssh_user = none;
  ssh_port = none;
  ssh_key = none;
  txpower_dbm = unset;
  init_script = none;
}

-- `cards` wins over `wlans`, and a card object has its defaults.
mixed :
    resolve_cards
      ("wlan9" ∷ [])
      (record { cards = some (name "wlan0" ∷ object remote ∷ []); wlans = some [] })
    ≡ some (local_card "wlan0" ∷ record (local_card "wlan2") { host = some "10.0.0.2" } ∷ [])
unfolding resolve_cards parse_cards parse_entries
mixed = refl

-- The legacy list takes no remote card.
legacy : parse_cards (record { cards = none; wlans = some (object remote ∷ []) }) ≡ none
unfolding parse_cards parse_entries
legacy = refl

-- Without a list the detector's cards are used.
detected :
    resolve_cards {F = ℤ} ("wlan9" ∷ []) (record { cards = none; wlans = none })
    ≡ some (local_card "wlan9" ∷ [])
unfolding resolve_cards parse_cards
detected = refl
