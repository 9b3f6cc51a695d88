-- ===== src/Supervision/Respawn.antt =====
-- How the crash watch of a wfb child ends.
use fpvd.Prelude.{
  ◌+◌, ◌≤◌, ◌≡◌, ◌∙◌, ap, sym, inl, inr, refl, Bool, true, false, not, none, List, [], ◌∷◌, ◌++◌,
  arith, is_some, length, All, Bool-cases,
}
use mathlib.Core.Path.{subst}
use fpvd.Prelude.Float.{Float}
use fpvd.Supervision.Budget.{over, in_window, length-charge, charge-All}
use fpvd.Supervision.Child.{
  WfbChild, Attempt, Ended, faulted, running, stopped_by_operator, unfinished, spawn_and_wait,
  charged, counted, respawn, Spawn, os_error, exited, ready, killed,
}

-- The respawn leaves no process: the spawn failed, or the handshake timed out.
abbrev pub fails : Spawn → Bool
fails (os_error errno) = true
fails (killed code) = true
fails _ = false

module _ {F : Type 0} ⦃fl : Float F⦄ where
  -- Each attempt lies in the window of the crashes before it.
  abbrev pub Close : F → List F → List (Attempt F) → Type 0
  Close window recent [] = Unit
  Close window recent (a ∷ rest) =
      All (λ t. in_window window a.now t ≡ true) recent × Close window (recent ++ a.now ∷ []) rest

  -- Every attempt fails, and nobody stops the child.
  abbrev pub Failing : List (Attempt F) → Type 0
  Failing [] = Unit
  Failing (a ∷ rest) = ((a.stopped ≡ false) × (fails a.outcome ≡ true)) × Failing rest

  -- The terminal states of the watch.
  abbrev pub Terminal : WfbChild F → WfbChild F → Ended → Type 0
  Terminal c d faulted =
      (d.fault ≡ true)
      × (d.supervise ≡ false)
      × (d.proc ≡ none)
      × (d.faults_reported ≡ c.faults_reported + 1)
  Terminal c d running =
      (d.fault ≡ c.fault)
      × (d.supervise ≡ c.supervise)
      × (is_some d.proc ≡ true)
      × (d.faults_reported ≡ c.faults_reported)
  Terminal c d stopped_by_operator =
      (d.fault ≡ c.fault) × (d.supervise ≡ false) × (d.faults_reported ≡ c.faults_reported)
  Terminal c d unfinished =
      (d.fault ≡ c.fault) × (d.supervise ≡ c.supervise) × (d.faults_reported ≡ c.faults_reported)

  spawn_and_wait-fixed :
      (c : WfbChild F) (o : Spawn)
      → ((spawn_and_wait c o).fault ≡ c.fault)
        × ((spawn_and_wait c o).supervise ≡ c.supervise)
        × ((spawn_and_wait c o).recent ≡ c.recent)
        × ((spawn_and_wait c o).max_restarts ≡ c.max_restarts)
        × ((spawn_and_wait c o).restart_window ≡ c.restart_window)
        × ((spawn_and_wait c o).auto_restarts ≡ c.auto_restarts)
        × ((spawn_and_wait c o).faults_reported ≡ c.faults_reported)
        × (is_some (spawn_and_wait c o).proc ≡ not (fails o))
  unfolding spawn_and_wait
  spawn_and_wait-fixed c (os_error e) = (refl, refl, refl, refl, refl, refl, refl, refl)
  spawn_and_wait-fixed c (exited p e) = (refl, refl, refl, refl, refl, refl, refl, refl)
  spawn_and_wait-fixed c (ready p) = (refl, refl, refl, refl, refl, refl, refl, refl)
  spawn_and_wait-fixed c (killed e) = (refl, refl, refl, refl, refl, refl, refl, refl)

  Terminal-of :
      (f c d : WfbChild F) (e : Ended)
      → f.fault ≡ c.fault
      → f.supervise ≡ c.supervise
      → f.faults_reported ≡ c.faults_reported
      → Terminal f d e
      → Terminal c d e
  Terminal-of f c d faulted x y z t = (t.0, t.1, t.2, t.3 ∙ ap (λ n. n + 1) z)
  Terminal-of f c d running x y z t = (t.0 ∙ x, t.1 ∙ y, t.2, t.3 ∙ z)
  Terminal-of f c d stopped_by_operator x y z t = (t.0 ∙ x, t.1, t.2 ∙ z)
  Terminal-of f c d unfinished x y z t = (t.0 ∙ x, t.1 ∙ y, t.2 ∙ z)

  pub record GivenUp (c : WfbChild F) (d : WfbChild F) (e : Ended) : Type 0 where
    pub ended : e ≡ faulted
    pub fault : d.fault ≡ true
    pub supervise : d.supervise ≡ false
    pub proc : d.proc ≡ none
    pub reported : d.faults_reported ≡ c.faults_reported + 1
    pub respawns : d.auto_restarts + length c.recent ≡ c.auto_restarts + c.max_restarts

  -- When every respawn fails, each within the window of the crashes before it, as many times as
  -- the budget still allows and once more, the watch gives up: it faults, reports that once, is
  -- left with no process and no supervision, and has respawned as often as the budget allowed.
  pub respawn_gives_up :
      (c : WfbChild F) (rest : List (Attempt F))
      → Close c.restart_window c.recent rest
      → Failing rest
      → length c.recent + length rest ≡ c.max_restarts + 1
      → length c.recent ≤ c.max_restarts
      → GivenUp c (respawn c rest).0 (respawn c rest).1
  unfolding respawn
  respawn_gives_up c [] close fail n le = absurd (omega (arith, n, le))
  respawn_gives_up c (a ∷ rest) close fail n le =
      let d = charged c a.now in
      let e = counted d in
      let f = spawn_and_wait e a.outcome in
      let g = spawn_and_wait-fixed e a.outcome in
      let len = length-charge c.restart_window a.now c.recent close.0 in
      let more = charge-All c.restart_window a.now c.recent close.0 in
      elim (Bool-cases (over c.max_restarts d.recent)) [
        | inl o ↦
            rw (o, respawn)
              (record {
                ended = refl;
                fault = refl;
                supervise = refl;
                proc = refl;
                reported = refl;
                respawns = ground (arith, o, len, le);
              })
        | inr o ↦
            let gone : is_some f.proc ≡ false = g.7 ∙ ap not fail.0.1 in
            let kept = ap length g.2 in
            let r =
              respawn_gives_up f rest
                (subst (λ w. Close w f.recent rest) (sym g.4)
                  (subst (λ l. Close c.restart_window l rest) (sym (g.2 ∙ more)) close.1))
                fail.1 (omega (arith, kept, len, n, g.3)) (ground (arith, kept, len, o, g.3)) in
            rw (o, fail.0.0, gone, respawn)
              (record {
                ended = r.ended;
                fault = r.fault;
                supervise = r.supervise;
                proc = r.proc;
                reported = omega (arith, r.reported, g.6);
                respawns = omega (arith, r.respawns, kept, len, g.3, g.5);
              })
      ]

  pub record Ends (c : WfbChild F) (r : WfbChild F × Ended) : Type 0 where
    pub terminal : Terminal c r.0 r.1

  -- The inner loop of the watch leaves the child in one of its terminal states: faulted, reported once
  -- and without a process; with a process to watch; or stopped. Before that it has reported nothing.
  pub respawn-Ends : (c : WfbChild F) (rest : List (Attempt F)) → Ends c (respawn c rest)
  unfolding respawn
  respawn-Ends c [] = record { terminal = (refl, refl, refl) }
  respawn-Ends c (a ∷ rest) =
      let d = charged c a.now in
      let e = counted d in
      let f = spawn_and_wait e a.outcome in
      let g = spawn_and_wait-fixed e a.outcome in
      elim (Bool-cases (over c.max_restarts d.recent)) [
        | inl o ↦ rw (o, respawn) (record { terminal = (refl, refl, refl, refl) })
        | inr o ↦ elim (Bool-cases a.stopped) [
          | inl s ↦ rw (o, s, respawn) (record { terminal = (refl, refl, refl) })
          | inr s ↦ elim (Bool-cases (is_some f.proc)) [
            | inl p ↦ rw (o, s, p, respawn) (record { terminal = (g.0, g.1, p, g.6) })
            | inr p ↦
                let r = (respawn-Ends f rest).terminal in
                rw (o, s, p, respawn)
                  (record {
                    terminal = Terminal-of f c (respawn f rest).0 (respawn f rest).1 g.0 g.1 g.6 r;
                  })
          ]
        ]
      ]
