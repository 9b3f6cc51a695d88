-- ===== src/Wfb/Radio.antt =====
-- gs/fpvdgs/radio.py: the arguments of `iw` that tune a card.
use Prim.Native.String.{String}
use fpvd.Prelude.{ℕ, ◌==◌, ltb, List, [], ◌∷◌, if◌then◌else◌}
use fpvd.Prelude.Show.{show}

-- `WIDTH_HTMODE.get(width, "HT20")`
abbrev pub htmode : ℕ → String
htmode width =
    if width == 5
    then "5MHz"
    else if width == 10
    then "10MHz"
    else if width == 20
    then "HT20"
    else if width == 40
    then "HT40+"
    else "HT20"

-- A number over 2000 is a frequency.
unfoldable pub iw_args : String → ℕ → ℕ → List String
iw_args wlan channel width =
    if ltb 2000 channel
    then "iw" ∷ "dev" ∷ wlan ∷ "set" ∷ "freq" ∷ show channel ∷ htmode width ∷ []
    else "iw" ∷ "dev" ∷ wlan ∷ "set" ∷ "channel" ∷ show channel ∷ htmode width ∷ []
