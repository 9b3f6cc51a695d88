-- ===== src/Wfb/StatsHub/Closing.antt =====
-- A closed hub leaves no consumer waiting.
use fpvd.Prelude.{ℕ, ◌≡◌, Bool, true, ◌||◌, not, List, [], ◌∷◌, All}
use fpvd.Prelude.Float.{Float}
use fpvd.Prelude.Dict.{Dict}
use fpvd.Wfb.StatsHub.{StatsHub, Subscription, drain, run_source, unsubscribe, close_loop, close}
use fpvd.Wfb.StatsHub.Window.{aggregate_window}
use fpvd.Wfb.StatsHub.Delivery.{Input, produce}

-- What the engine, the consumers and their loops do to a hub.
pub data Act (F : Type 0) : Type 0 where
  input : Input F → Act F
  turn : ℕ → Act F
  source : F → Act F
  end_source : ℕ → Act F
  loop_closes : ℕ → Act F
  hub_closes : Act F
  window_ends : Act F

module _ {F : Type 0} where
  -- Of a closed hub: a subscription that is listed, with an open loop, has been woken.
  abbrev woken : Bool → Subscription F → Bool
  woken closed s = not closed || not s.listed || not s.loop_open || s.closed_event

  abbrev pub AllWoken : StatsHub F → Type 0
  AllWoken hub = All (λ s. woken hub.closed s ≡ true) hub.subs

  abbrev WokenIn : Bool → List (Subscription F) → Type 0
  WokenIn closed subs = All (λ s. woken closed s ≡ true) subs

module _ {F : Type 0} ⦃fl : Float F⦄ where
  unfoldable pub act : StatsHub F → Act F → StatsHub F
  act hub (input i) = produce hub i
  act hub (turn i) = drain hub i
  act hub (source time) = run_source hub time
  act hub (end_source i) = unsubscribe hub i
  act hub (loop_closes i) = close_loop hub i
  act hub hub_closes = close hub
  act hub window_ends = (aggregate_window hub).1

  -- A window leaves the subscriptions alone.
  abbrev Untouched : StatsHub F → StatsHub F → Type 0
  Untouched hub t = (t.closed ≡ hub.closed) × (t.subs ≡ hub.subs)

  unfoldable pub act_all : StatsHub F → List (Act F) → StatsHub F
  act_all hub [] = hub
  act_all hub (a ∷ acts) = act_all (act hub a) acts
