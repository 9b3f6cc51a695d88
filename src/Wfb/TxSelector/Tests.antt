-- ===== src/Wfb/TxSelector/Tests.antt =====
-- The selection at concrete counters.
use fpvd.Prelude.{ℕ, ◌≡◌, refl, Option, none, some, [], ◌∷◌}
use fpvd.Prelude.Int.{ℤ, pos, negsuc, ◌+ℤ◌, ◌-ℤ◌, ◌*ℤ◌}
use fpvd.Prelude.Dict.{Dict, get?, put}
use fpvd.Prelude.Fixed.{milli}
use fpvd.Wfb.TxSelector.{
  AntStats, TxSelector, insert_row, sorted_rows, group_rows, rank_groups, keys, best_from,
  candidates, current_rssi, ranked, near_max, switch_to, select,
}
use fpvd.Wfb.TxSelector.Chosen.{Switched, select-Switched, select_settles}

abbrev selector : Option ℕ → TxSelector ℤ
selector c = record {
  cfg = record {
    rssi_delta_db = pos 3;
    counter_rel_delta = milli.decimal 1 1;
    counter_abs_delta = pos 3;
  };
  rx_only_wlan_ids = 2 ∷ [];
  current = c;
}

-- Two antennas of card 0, one each of the cards 1, 2 and 3; card 2 only receives, card 3 is far.
abbrev window : ℤ → Dict AntStats
window rssi =
    (513, record { pkt_s = 200; rssi_avg = negsuc 19 })
    ∷ (1, record { pkt_s = 98; rssi_avg = negsuc 59 })
    ∷ (256, record { pkt_s = 100; rssi_avg = rssi })
    ∷ (0, record { pkt_s = 95; rssi_avg = negsuc 54 })
    ∷ (768, record { pkt_s = 50; rssi_avg = negsuc 9 })
    ∷ []

-- 2 dB better is not enough, 3 dB is; without a current card the best one is taken.
not_enough :
    select ⦃fl = milli⦄ (selector (some 0)) (window (negsuc 52)) ≡ (none, selector (some 0))
unfolding select ranked near_max switch_to insert_row sorted_rows group_rows rank_groups keys
    best_from candidates current_rssi get? put milli ◌+ℤ◌ ◌-ℤ◌ ◌*ℤ◌
not_enough = refl

enough : select ⦃fl = milli⦄ (selector (some 0)) (window (negsuc 51)) ≡ (some 1, selector (some 1))
unfolding select ranked near_max switch_to insert_row sorted_rows group_rows rank_groups keys
    best_from candidates current_rssi get? put milli ◌+ℤ◌ ◌-ℤ◌ ◌*ℤ◌
enough = refl

out_of_the_race :
    select ⦃fl = milli⦄ (selector (some 3)) (window (negsuc 52)) ≡ (some 1, selector (some 1))
unfolding select ranked near_max switch_to insert_row sorted_rows group_rows rank_groups keys
    best_from candidates current_rssi get? put milli ◌+ℤ◌ ◌-ℤ◌ ◌*ℤ◌
out_of_the_race = refl

select-Switched_example :
    (rssi : ℤ) × Switched ⦃fl = milli⦄
      (selector (some 0))
      (ranked ⦃fl = milli⦄ (selector (some 0)) (window (negsuc 51))).0
      (near_max ⦃fl = milli⦄ (selector (some 0)) (window (negsuc 51)))
      rssi
      (select ⦃fl = milli⦄ (selector (some 0)) (window (negsuc 51)))
select-Switched_example = select-Switched ⦃fl = milli⦄ (selector (some 0)) (window (negsuc 51))

select_settles_run :
    select ⦃fl = milli⦄
      (select ⦃fl = milli⦄ (selector (some 0)) (window (negsuc 51))).1
      (window (negsuc 51))
    ≡ (none, (select ⦃fl = milli⦄ (selector (some 0)) (window (negsuc 51))).1)
select_settles_run = select_settles ⦃fl = milli⦄ (selector (some 0)) (window (negsuc 51))
