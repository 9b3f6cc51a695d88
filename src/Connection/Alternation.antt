-- ===== src/Connection/Alternation.antt =====
-- What the monitor publishes alternates, and tells its state.
use fpvd.Prelude.{◌≡◌, refl, Bool, true, false, ◌&&◌, not, List, [], ◌∷◌, arith, if_ind}
use fpvd.Prelude.Float.{Float}
use fpvd.Connection.{
  ConnectionMonitor, ConnectionMonitorConfig, State, disconnected, armed, connected, Published,
  Pass, Event, rx, pass, drone_connected, drone_disconnected, tunnel_fresh, new, on_tunnel_rx,
  enter_connected, enter_disconnected, confirm, heartbeat, suspect, watch, evaluate, evaluate_in,
  step, run,
}

abbrev is_connected : State → Bool
is_connected connected = true
is_connected _ = false

-- Newest first: the last word says whether the drone is connected, and the words alternate,
-- a connection first.
abbrev last_word : {F J : Type 0} → List (Published F J) → Bool
last_word [] = false
last_word (drone_connected _ _ ∷ _) = true
last_word (drone_disconnected _ _ _ ∷ _) = false

abbrev alternate : {F J : Type 0} → List (Published F J) → Bool
alternate [] = true
alternate (drone_connected _ _ ∷ ps) = not (last_word ps) && alternate ps
alternate (drone_disconnected _ _ _ ∷ ps) = last_word ps && alternate ps

module _ {F J : Type 0} ⦃fl : Float F⦄ where
  -- The bus has been told exactly what the state is.
  pub record IsPublished (m : ConnectionMonitor F J) : Type 0 where
    pub told : last_word m.published ≡ is_connected m.state
    pub alternates : alternate m.published ≡ true

  confirm-IsPublished :
      (m : ConnectionMonitor F J) (p : Pass F J)
      → IsPublished m
      → is_connected m.state ≡ false
      → IsPublished (confirm m p)
  unfolding confirm enter_connected
  confirm-IsPublished m p i h = record {
    told = ground (arith, i.told, h);
    alternates = ground (arith, i.told, i.alternates, h);
  }

  watch-IsPublished :
      (m : ConnectionMonitor F J) (p : Pass F J)
      → IsPublished m
      → is_connected m.state ≡ true
      → IsPublished (watch m p)
  unfolding watch heartbeat suspect enter_disconnected
  watch-IsPublished m p i h = record {
    told = ground (arith, i.told, h);
    alternates = ground (arith, i.told, i.alternates, h);
  }

  evaluate_in-IsPublished :
      (s : State) (m : ConnectionMonitor F J) (p : Pass F J)
      → IsPublished m
      → m.state ≡ s
      → IsPublished (evaluate_in s m p)
  evaluate_in-IsPublished disconnected m p i e =
      if_ind IsPublished (tunnel_fresh m p.start) (confirm (record m { state = armed }) p) m
        (λ _.
          confirm-IsPublished (record m { state = armed }) p
            (record { told = ground (arith, i.told, e); alternates = i.alternates }) refl)
        (λ _. i)
  evaluate_in-IsPublished armed m p i e = confirm-IsPublished m p i (ground (arith, e))
  evaluate_in-IsPublished connected m p i e = watch-IsPublished m p i (ground (arith, e))

  step-IsPublished :
      (m : ConnectionMonitor F J) (e : Event F J) → IsPublished m → IsPublished (step m e)
  unfolding step on_tunnel_rx evaluate
  step-IsPublished m (rx now) i = record { told = i.told; alternates = i.alternates }
  step-IsPublished m (pass p) i = evaluate_in-IsPublished m.state m p i refl

  run-IsPublished :
      (m : ConnectionMonitor F J) (es : List (Event F J)) → IsPublished m → IsPublished (run m es)
  unfolding run
  run-IsPublished m [] i = i
  run-IsPublished m (e ∷ es) i = run-IsPublished (step m e) es (step-IsPublished m e i)

  -- Whatever tunnel records, answers and clock readings a new monitor meets, its words on the bus
  -- alternate, a connection first, and the last one tells whether it is connected.
  pub events_alternate :
      (cfg : ConnectionMonitorConfig F) (es : List (Event F J)) → IsPublished (run (new cfg) es)
  unfolding new
  events_alternate cfg es = run-IsPublished (new cfg) es (record { told = refl; alternates = refl })
