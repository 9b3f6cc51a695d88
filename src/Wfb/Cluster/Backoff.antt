-- ===== src/Wfb/Cluster/Backoff.antt =====
-- The retries of a node's session: as many as the failures need, never slower than the cap.
use mathlib.Core.List.{append_assoc}
use fpvd.Prelude.{
  ℕ, zero, suc, ◌+◌, ◌≡◌, refl, ap, ◌∙◌, sym, Bool, true, false, not, some, List, [], ◌∷◌, ◌++◌,
  arith, if◌then◌else◌, if_ind, length, replicate, All,
}
use fpvd.Prelude.Int.{pos}
use fpvd.Prelude.Float.{Float, IsOrdered, min_float}
use fpvd.Prelude.Text.Laws.{All-append}
use fpvd.Wfb.Cluster.Session.{
  NodeSession, Spawn, landed, os_error, spawn, has_landed, retry, was_durable, lost, on_exit,
}

not_above : (b : Bool) → not b ≡ false → b ≡ true
not_above b h = ground (arith, h)

module _ {F : Type 0} ⦃fl : Float F⦄ where
  -- Everything slept is within the cap, and so is the next delay.
  abbrev pub IsCapped : NodeSession F → Type 0
  IsCapped s =
      All (λ d. fl.le d s.max_backoff ≡ true) s.slept
      × (fl.le s.delay s.max_backoff ≡ true)
      × (fl.le s.backoff s.max_backoff ≡ true)

  min_capped : IsOrdered fl → (a b : F) → fl.le (min_float a b) b ≡ true
  min_capped o a b =
      if_ind (λ m. fl.le m b ≡ true) (fl.lt b a) b a (λ _. o.le_refl b)
        (λ e. not_above (fl.le a b) (sym (o.lt_not_le b a) ∙ e))

  spawn-IsCapped : (s : NodeSession F) (o : Spawn F) → IsCapped s → IsCapped (spawn s o)
  spawn-IsCapped s (landed now) h = h
  spawn-IsCapped s os_error h = h

  retry-IsCapped :
      IsOrdered fl
      → (s : NodeSession F) (tries : List (Spawn F)) → IsCapped s
      → IsCapped (retry s tries)
  unfolding retry
  retry-IsCapped o s [] h = h
  retry-IsCapped o s (t ∷ tries) h =
      let m = min_capped o (fl.mul s.delay (fl.of_int (pos 2))) s.max_backoff in
      let slept =
        All-append (λ d. fl.le d s.max_backoff ≡ true) s.slept (s.delay ∷ []) h.0 (h.1, tt) in
      let waited = record s {
        slept = s.slept ++ s.delay ∷ [];
        delay = min_float (fl.mul s.delay (fl.of_int (pos 2))) s.max_backoff;
      } in
      let again = spawn (record waited { restarts = s.restarts + 1 }) t in
      let k = spawn-IsCapped (record waited { restarts = s.restarts + 1 }) t (slept, m, h.2) in
      if_ind IsCapped (not s.supervise) _ _ (λ _. (slept, m, h.2))
        (λ _. if_ind IsCapped (has_landed t) _ _ (λ _. k) (λ _. retry-IsCapped o again tries k))

  lost-IsCapped : (s : NodeSession F) (now : F) → IsCapped s → IsCapped (lost s now)
  lost-IsCapped s now h = (
    h.0,
    if_ind (λ d. fl.le d s.max_backoff ≡ true) (was_durable s now) _ _ (λ _. h.2) (λ _. h.1),
    h.2,
  )

  -- The exits of the process, each with the tries after it.
  unfoldable pub run : NodeSession F → List (F × List (Spawn F)) → NodeSession F
  run s [] = s
  run s ((now, tries) ∷ exits) = run (on_exit s now tries) exits

  -- However often a node is lost and however many tries fail, the session never sleeps longer than
  -- the cap before a try, when its delays start within the cap.
  pub run-IsCapped :
      IsOrdered fl
      → (s : NodeSession F) (exits : List (F × List (Spawn F))) → IsCapped s
      → IsCapped (run s exits)
  unfolding run on_exit
  run-IsCapped o s [] h = h
  run-IsCapped o s ((now, tries) ∷ exits) h = run-IsCapped o (on_exit s now tries) exits (
      if_ind IsCapped s.supervise _ _
        (λ _. retry-IsCapped o (lost s now) tries (lost-IsCapped s now h)) (λ _. h))

  -- The session after a number of failed tries and one that lands.
  abbrev pub Recovered : NodeSession F → ℕ → F → NodeSession F → Type 0
  Recovered s fails time t =
      (t.alive ≡ true)
      × (t.proc ≡ true)
      × (t.supervise ≡ true)
      × (t.spawned_at ≡ some time)
      × (t.restarts ≡ s.restarts + fails + 1)
      × (t.calls ≡ s.calls ++ (true, t.restarts) ∷ [])
      × ((more : List F) × (t.slept ≡ s.slept ++ s.delay ∷ more) × (length more ≡ fails))

  retry-Recovered :
      (s : NodeSession F) (fails : ℕ) (time : F)
      → s.supervise ≡ true
      → Recovered s fails time (retry s (replicate fails os_error ++ landed time ∷ []))
  unfolding retry
  retry-Recovered s zero time h =
      if_ind (Recovered s 0 time) (not s.supervise) _ _ (λ e. absurd (ground (arith, e, h)))
        (λ _. (refl, refl, h, refl, omega arith, refl, ([], refl, refl)))
  retry-Recovered s (suc fails) time h =
      let again =
        spawn
          (record s {
            slept = s.slept ++ s.delay ∷ [];
            delay = min_float (fl.mul s.delay (fl.of_int (pos 2))) s.max_backoff;
            restarts = s.restarts + 1;
          })
          os_error in
      let r = retry-Recovered again fails time h in
      if_ind (Recovered s (suc fails) time) (not s.supervise) _ _
        (λ e. absurd (ground (arith, e, h)))
        (λ _. (
          r.0,
          r.1,
          r.2,
          r.3,
          omega (arith, r.4),
          r.5,
          (
            again.delay ∷ r.6.0,
            r.6.1 ∙ append_assoc s.slept (s.delay ∷ []) (again.delay ∷ r.6.0),
            ap suc r.6.2,
          ),
        ))

  -- A lost session that is back, with the tries it took.
  abbrev pub CameBack : NodeSession F → F → ℕ → NodeSession F → Type 0
  CameBack s now fails t =
      (t.alive ≡ true)
      × (t.calls ≡ (s.calls ++ (false, s.restarts) ∷ []) ++ (true, t.restarts) ∷ [])
      × (t.restarts ≡ s.restarts + fails + 1)
      × ((more : List F) × (t.slept
            ≡ s.slept ++ (if was_durable s now then s.backoff else s.delay) ∷ more)
          × (length more ≡ fails))

  -- A node that is lost is reported down and, after any number of failed tries, up again as soon as a
  -- try lands: the session never gives up, sleeps once before each try, and first sleeps the base
  -- back-off when it had been up for the stable time, the delay it had reached otherwise.
  pub on_exit-CameBack :
      (s : NodeSession F) (now : F) (fails : ℕ) (time : F)
      → s.supervise ≡ true
      → CameBack s now fails (on_exit s now (replicate fails os_error ++ landed time ∷ []))
  unfolding on_exit
  on_exit-CameBack s now fails time h =
      let r = retry-Recovered (lost s now) fails time h in
      if_ind (CameBack s now fails) s.supervise _ _ (λ _. (r.0, r.5, r.4, r.6))
        (λ e. absurd (ground (arith, e, h)))
