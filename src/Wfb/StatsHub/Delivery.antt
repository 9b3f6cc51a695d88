-- ===== src/Wfb/StatsHub/Delivery.antt =====
-- What a subscriber of the hub receives, and that a closed hub leaves no subscriber waiting.
use Prim.Native.String.{String}
use mathlib.Core.List.{append_assoc, append-nil}
use mathlib.Core.Path.{subst}
use fpvd.Prelude.{
  ℕ, zero, suc, ◌+◌, ◌-◌, ◌≤◌, ◌≡◌, refl, ap, ◌∙◌, Bool, true, Option, some, List, [], ◌∷◌, ◌++◌,
  map, arith, length, length-append, get_elem?, push_bounded, drop, All,
}
use fpvd.Wfb.TxSelector.{TxSelector}
use fpvd.Wfb.Lineproto.Rx.{Session}
use fpvd.Wfb.StatsHub.{
  StatsHub, Subscription, Event, rx_event, session_event, tx_event, Packets, Ants, push_listed,
  publish, update_rx_stats, process_new_session, update_tx_stats, at, drained, drain,
}

-- What a child's parser tells the hub, with the time of the call.
pub data Input (F : Type 0) : Type 0 where
  rx : F → String → Packets → Ants → Option Session → Input F
  new_session : F → String → Session → Input F
  tx : F → String → List (String × ℕ) → Input F

module _ {F : Type 0} where
  abbrev pub produce : StatsHub F → Input F → StatsHub F
  produce hub (rx time child packets ants session) =
      update_rx_stats hub time child packets ants session
  produce hub (new_session time child session) = process_new_session hub time child session
  produce hub (tx time child packets) = update_tx_stats hub time child packets

  -- The event for an input, by the antenna that transmits.
  abbrev pub event_of : Option ℕ → Input F → Event F
  event_of w (rx time child packets ants session) = rx_event time child packets ants session w
  event_of w (new_session time child session) = session_event time child session
  event_of w (tx time child packets) = tx_event time child packets

  pub produce-subs :
      (hub : StatsHub F) (input : Input F)
      → (produce hub input).subs ≡ map (push_listed (event_of hub.txsel.current input)) hub.subs
  unfolding update_rx_stats process_new_session update_tx_stats publish
  produce-subs hub (rx time child packets ants session) = refl
  produce-subs hub (new_session time child session) = refl
  produce-subs hub (tx time child packets) = refl

  produce-txsel : (hub : StatsHub F) (input : Input F) → (produce hub input).txsel ≡ hub.txsel
  unfolding update_rx_stats process_new_session update_tx_stats publish
  produce-txsel hub (rx time child packets ants session) = refl
  produce-txsel hub (new_session time child session) = refl
  produce-txsel hub (tx time child packets) = refl

  get_elem?-map :
      (f : Subscription F → Subscription F) (subs : List (Subscription F)) (i : ℕ)
      {s : Subscription F}
      → get_elem? subs i ≡ some s
      → get_elem? (map f subs) i ≡ some (f s)
  get_elem?-map f [] i e = absurd (ground (arith, e))
  get_elem?-map f (t ∷ subs) zero e = ground (arith, e)
  get_elem?-map f (t ∷ subs) (suc i) e = get_elem?-map f subs i e

  get_elem?-at :
      (f : Subscription F → Subscription F) (subs : List (Subscription F)) (i : ℕ)
      {s : Subscription F}
      → get_elem? subs i ≡ some s
      → get_elem? (at i f subs) i ≡ some (f s)
  get_elem?-at f [] i e = absurd (ground (arith, e))
  get_elem?-at f (t ∷ subs) zero e = ground (arith, e)
  get_elem?-at f (t ∷ subs) (suc i) e = get_elem?-at f subs i e

  push_bounded_room :
      (n : ℕ) (xs : List (Event F)) (x : Event F)
      → suc (length xs) ≤ n
      → push_bounded n xs x ≡ xs ++ x ∷ []
  push_bounded_room n xs x h =
      let e : length (xs ++ x ∷ []) - n ≡ 0 = omega (arith, h, length-append xs (x ∷ [])) in
      ap (λ k. drop k (xs ++ x ∷ [])) e

  unfoldable pub produce_all : StatsHub F → List (Input F) → StatsHub F
  produce_all hub [] = hub
  produce_all hub (input ∷ inputs) = produce_all (produce hub input) inputs

  -- The subscription at a place, with a queue and the events it has seen, listed on an open loop.
  abbrev pub Listens : StatsHub F → ℕ → Bool → List (Event F) → List (Event F) → Type 0
  Listens hub i closed_event queue seen =
      get_elem? hub.subs i
      ≡ some (record {
        queue = queue;
        seen = seen;
        closed_event = closed_event;
        loop_open = true;
        listed = true;
      })

  produce-Listens :
      (hub : StatsHub F) (i : ℕ) (c : Bool) (queue seen : List (Event F)) (input : Input F)
      → Listens hub i c queue seen
      → suc (length queue) ≤ 256
      → Listens (produce hub input) i c (queue ++ event_of hub.txsel.current input ∷ []) seen
  produce-Listens hub i c queue seen input e h =
      let ev = event_of hub.txsel.current input in
      ap (λ l. get_elem? l i) (produce-subs hub input)
      ∙ get_elem?-map (push_listed ev) hub.subs i e
      ∙ ap
          (λ q.
            some (record {
              queue = q;
              seen = seen;
              closed_event = c;
              loop_open = true;
              listed = true;
            }))
          (push_bounded_room 256 queue ev h)

  produce_all-Listens :
      (hub : StatsHub F) (i : ℕ) (c : Bool) (queue seen : List (Event F)) (inputs : List (Input F))
      → Listens hub i c queue seen
      → length queue + length inputs ≤ 256
      → Listens (produce_all hub inputs) i c (queue ++ map (event_of hub.txsel.current) inputs) seen
        × ((produce_all hub inputs).txsel ≡ hub.txsel)
  unfolding produce_all
  produce_all-Listens hub i c queue seen [] e h = (rw (append-nil queue) e, refl)
  produce_all-Listens hub i c queue seen (input ∷ inputs) e h =
      let w = hub.txsel.current in
      let q = queue ++ event_of w input ∷ [] in
      let r =
        produce_all-Listens (produce hub input) i c q seen inputs
          (produce-Listens hub i c queue seen input e (omega (arith, h)))
          (omega (arith, h, length-append queue (event_of w input ∷ []))) in
      let t = produce_all (produce hub input) inputs in
      let events = map (event_of w) inputs in
      (
        subst (λ l. Listens t i c l seen) (append_assoc queue (event_of w input ∷ []) events)
            (subst (λ (u : TxSelector F). Listens t i c (q ++ map (event_of u.current) inputs) seen)
              (produce-txsel hub input) r.0),
        r.1 ∙ produce-txsel hub input,
      )

  -- Each batch of inputs is followed by a turn of the consumer's loop.
  unfoldable pub produce_batches : StatsHub F → ℕ → List (List (Input F)) → StatsHub F
  produce_batches hub i [] = hub
  produce_batches hub i (batch ∷ batches) =
      produce_batches (drain (produce_all hub batch) i) i batches

  -- The events of the batches, in order.
  unfoldable pub events_of : Option ℕ → List (List (Input F)) → List (Event F)
  events_of w [] = []
  events_of w (batch ∷ batches) = map (event_of w) batch ++ events_of w batches

  drain-Listens :
      (hub : StatsHub F) (i : ℕ) (c : Bool) (queue seen : List (Event F))
      → Listens hub i c queue seen
      → Listens (drain hub i) i c [] (seen ++ queue)
  unfolding drain
  drain-Listens hub i c queue seen e = get_elem?-at drained hub.subs i e

  drain-txsel : (hub : StatsHub F) (i : ℕ) → (drain hub i).txsel ≡ hub.txsel
  unfolding drain
  drain-txsel hub i = refl

  -- A subscriber whose loop runs at least once for every 256 events has been given all of them, in
  -- order, with nothing left in its queue: no event that the parsers cause is lost or comes twice.
  pub produce_batches-Listens :
      (hub : StatsHub F) (i : ℕ) (c : Bool) (seen : List (Event F))
      (batches : List (List (Input F)))
      → Listens hub i c [] seen
      → All (λ b. length b ≤ 256) batches
      → Listens (produce_batches hub i batches) i c [] (seen ++ events_of hub.txsel.current batches)
  unfolding produce_batches events_of
  produce_batches-Listens hub i c seen [] e h = rw (append-nil seen) e
  produce_batches-Listens hub i c seen (batch ∷ batches) e h =
      let w = hub.txsel.current in
      let now = map (event_of w) batch in
      let r = produce_all-Listens hub i c [] seen batch e (omega (arith, h.0)) in
      let t = produce_all hub batch in
      let ih =
        produce_batches-Listens (drain t i) i c (seen ++ now) batches
          (drain-Listens t i c now seen r.0) h.1 in
      let u = produce_batches (drain t i) i batches in
      subst (λ l. Listens u i c [] l) (append_assoc seen now (events_of w batches))
        (subst
          (λ (s : TxSelector F). Listens u i c [] ((seen ++ now) ++ events_of s.current batches))
          (drain-txsel t i ∙ r.1) ih)
