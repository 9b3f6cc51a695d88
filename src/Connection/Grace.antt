-- ===== src/Connection/Grace.antt =====
-- A short outage is not published: the grace of a disconnect.
use fpvd.Prelude.{
  ◌≡◌, ◌∙◌, ap, refl, sym, false, Option, none, some, List, [], ◌∷◌, arith, if_ind, All,
}
use mathlib.Core.Path.{subst}
use fpvd.Prelude.Float.{Float}
use fpvd.Connection.{
  ConnectionMonitor, ConnectionMonitorConfig, connected, Pass, Event, rx, pass, on_tunnel_rx,
  heartbeat, is_bad, suspect, suspect_from, watch, evaluate, evaluate_in, step, run,
}

grace_of :
    {F : Type 0} {c d : ConnectionMonitorConfig F}
    → c ≡ d
    → c.disconnect_grace_s ≡ d.disconnect_grace_s
grace_of {F = F} e = ap (λ (c : ConnectionMonitorConfig F). c.disconnect_grace_s) e

module _ {F J : Type 0} ⦃fl : Float F⦄ where
  -- The event is no pass that ends at least the grace after `since`.
  abbrev Within : F → F → Event F J → Type 0
  Within grace since (rx now) = Unit
  Within grace since (pass p) = fl.le grace (fl.sub p.now since) ≡ false

  -- No two passes are the grace apart.
  abbrev pub Short : F → List (Event F J) → Type 0
  Short grace [] = Unit
  Short grace (rx now ∷ es) = Short grace es
  Short grace (pass p ∷ es) = All (Within grace p.now) es × Short grace es

  -- The outage under way, if there is one, is shorter than the grace at each pass to come.
  abbrev Suspected : F → Option F → List (Event F J) → Type 0
  Suspected grace none es = Unit
  Suspected grace (some since) es = All (Within grace since) es

  -- A connected monitor that has said nothing since `m`.
  pub record Quiet (m n : ConnectionMonitor F J) : Type 0 where
    pub cfg : n.cfg ≡ m.cfg
    pub state : n.state ≡ m.state
    pub published : n.published ≡ m.published

  -- Quiet, with the outage under way still short for what is to come.
  abbrev Held : ConnectionMonitor F J → ConnectionMonitor F J → List (Event F J) → Type 0
  Held m n es = Quiet m n × Suspected m.cfg.disconnect_grace_s n.bad_since es

  suspect_from-Held :
      (o : Option F) (m : ConnectionMonitor F J) (p : Pass F J) (es : List (Event F J))
      → m.bad_since ≡ o
      → Suspected m.cfg.disconnect_grace_s o (pass p ∷ es)
      → All (Within m.cfg.disconnect_grace_s p.now) es
      → Held m (suspect_from o m p) es
  suspect_from-Held none m p es e h w = (record { cfg = refl; state = refl; published = refl }, w)
  suspect_from-Held (some b) m p es e h w = rw h.0 (
    record { cfg = refl; state = refl; published = refl },
    subst (λ o. Suspected m.cfg.disconnect_grace_s o es) (sym e) h.1,
  )

  fixed-heartbeat :
      (m : ConnectionMonitor F J) (p : Pass F J)
      → ((heartbeat m p).cfg ≡ m.cfg)
        × ((heartbeat m p).state ≡ m.state)
        × ((heartbeat m p).published ≡ m.published)
        × ((heartbeat m p).bad_since ≡ m.bad_since)
  unfolding heartbeat
  fixed-heartbeat m p = ground arith

  watch-Held :
      (m : ConnectionMonitor F J) (p : Pass F J) (es : List (Event F J))
      → Suspected m.cfg.disconnect_grace_s m.bad_since (pass p ∷ es)
      → All (Within m.cfg.disconnect_grace_s p.now) es
      → Held m (watch m p) es
  unfolding watch suspect
  watch-Held m p es h w =
      let n = heartbeat m p in
      let f = fixed-heartbeat m p in
      if_ind (λ r. Held m r es) (is_bad n p.later) (suspect_from n.bad_since n p) _
        (λ _.
          let k = suspect_from-Held n.bad_since n p es refl (rw (f.0, f.3) h) (rw f.0 w) in
          (
            record {
              cfg = k.0.cfg ∙ f.0;
              state = k.0.state ∙ f.1;
              published = k.0.published ∙ f.2;
            },
            subst (λ g. Suspected g (suspect_from n.bad_since n p).bad_since es) (grace_of f.0) k.1,
          ))
        (λ _. (record { cfg = f.0; state = f.1; published = f.2 }, tt))

  Suspected-rx :
      (grace : F) (o : Option F) (now : F) (es : List (Event F J))
      → Suspected grace o (rx now ∷ es)
      → Suspected grace o es
  Suspected-rx grace none now es h = tt
  Suspected-rx grace (some b) now es h = h.1

  evaluate-connected :
      (m : ConnectionMonitor F J) (p : Pass F J) → m.state ≡ connected → evaluate m p ≡ watch m p
  unfolding evaluate
  evaluate-connected m p c = ap (λ s. evaluate_in s m p) c

  held_run :
      (m : ConnectionMonitor F J) (es : List (Event F J))
      → m.state ≡ connected
      → Short m.cfg.disconnect_grace_s es
      → Suspected m.cfg.disconnect_grace_s m.bad_since es
      → Quiet m (run m es)
  unfolding run step on_tunnel_rx
  held_run m [] c s h = record { cfg = refl; state = refl; published = refl }
  held_run m (rx now ∷ es) c s h =
      let q = held_run (on_tunnel_rx m now) es c s (Suspected-rx _ m.bad_since now es h) in
      record { cfg = q.cfg; state = q.state; published = q.published }
  held_run m (pass p ∷ es) c s h =
      let k = watch-Held m p es h s.0 in
      let g = sym (grace_of k.0.cfg) in
      let q =
        held_run (watch m p) es (k.0.state ∙ c) (subst (λ g. Short g es) g s.1)
          (subst (λ g. Suspected g (watch m p).bad_since es) g k.1) in
      rw (evaluate-connected m p c) (record {
        cfg = q.cfg ∙ k.0.cfg;
        state = q.state ∙ k.0.state;
        published = q.published ∙ k.0.published;
      })

  -- From a connected monitor with no outage under way, any run in which no two passes are the grace
  -- apart leaves it connected and publishes nothing, whatever the answers and the tunnel records.
  pub brief_outage_silent :
      (m : ConnectionMonitor F J) (es : List (Event F J))
      → m.state ≡ connected
      → m.bad_since ≡ none
      → Short m.cfg.disconnect_grace_s es
      → Quiet m (run m es)
  brief_outage_silent m es c b s =
      held_run m es c s (subst (λ o. Suspected m.cfg.disconnect_grace_s o es) (sym b) tt)

  -- A pass of a connected monitor that ends with a fresh tunnel and few enough failed polls clears
  -- the outage under way and publishes nothing.
  pub healthy_pass_clears :
      (m : ConnectionMonitor F J) (p : Pass F J)
      → m.state ≡ connected
      → is_bad (heartbeat m p) p.later ≡ false
      → ((evaluate m p).bad_since ≡ none) × Quiet m (evaluate m p)
  unfolding watch
  healthy_pass_clears m p c ok =
      let f = fixed-heartbeat m p in
      rw (evaluate-connected m p c)
        (rw ok (refl, record { cfg = f.0; state = f.1; published = f.2 }))
