-- ===== src/Wfb/Engine/Nodes.antt =====
-- What the engine's state tells of a node: the callback of its session writes it, at each call.
use mathlib.Core.List.{append_assoc, append-nil}
use fpvd.Prelude.{
  ℕ, ◌+◌, ◌≤◌, ◌≡◌, ◌∙◌, sym, ap, refl, Bool, true, false, not, List, [], ◌∷◌, ◌++◌, length, drop,
  if◌then◌else◌, if_ind, arith,
}
use fpvd.Prelude.Float.{Float}
use fpvd.Wfb.Cluster.Session.{NodeSession, Spawn, landed, os_error, lost, retry, on_exit}
use fpvd.Wfb.Engine.Setup.{NodeView}

-- `_on_node_state`, with the restarts that it reads.
abbrev pub on_node_state : Bool × ℕ → NodeView
on_node_state (up, restarts) = record { alive = up; restarts = restarts }

-- The calls of a session, in order: each writes the node's view anew.
abbrev pub tell : NodeView → List (Bool × ℕ) → NodeView
tell v [] = v
tell v (call ∷ calls) = tell (on_node_state call) calls

drop-append : (xs ys : List (Bool × ℕ)) → drop (length xs) (xs ++ ys) ≡ ys
drop-append [] ys = refl
drop-append (x ∷ xs) ys = drop-append xs ys

module _ {F : Type 0} ⦃fl : Float F⦄ where
  -- The session and its view after exits, each with the tries after it: the engine is told what the
  -- session calls meanwhile.
  unfoldable pub watch_all :
      NodeSession F × NodeView → List (F × List (Spawn F)) → NodeSession F × NodeView
  watch_all (s, v) [] = (s, v)
  watch_all (s, v) ((now, tries) ∷ exits) =
      let t = on_exit s now tries in watch_all (t, tell v (drop (length s.calls) t.calls)) exits

  -- A node is told up just when its session is, with the right number of restarts; of a node that is
  -- down the number may be from before the tries that failed.
  abbrev pub InSync : NodeSession F → NodeView → Type 0
  InSync s v =
      (v.alive ≡ s.alive)
      × (if s.alive then (v.restarts ≡ s.restarts) else (v.restarts ≤ s.restarts))

  -- A session with more calls, which leave the view in sync.
  record Told (s t : NodeSession F) (v : NodeView) : Type 0 where
    more : List (Bool × ℕ)
    appended : t.calls ≡ s.calls ++ more
    sync : InSync t (tell v more)

  silent : (s : NodeSession F) (v : NodeView) → InSync s v → Told s s v
  silent s v h = record { more = []; appended = sym (append-nil s.calls); sync = h }

  still :
      (s : NodeSession F) (v : NodeView)
      → s.alive ≡ false
      → v.alive ≡ false
      → v.restarts ≤ s.restarts
      → InSync s v
  still s v down h k = rw down (h, k)

  -- The tries to come back, of a session that is down and was told so.
  retry-Told :
      (tries : List (Spawn F)) (s : NodeSession F) (v : NodeView)
      → s.alive ≡ false
      → v.alive ≡ false
      → v.restarts ≤ s.restarts
      → Told s (retry s tries) v
  unfolding retry
  retry-Told [] s v down h k = silent s v (still s v down h k)
  retry-Told (landed now ∷ tries) s v down h k =
      if_ind {A = NodeSession F} (λ r. Told s r v) (not s.supervise) _ _
        (λ _. record { more = []; appended = sym (append-nil s.calls); sync = still s v down h k })
        (λ _. record { more = (true, s.restarts + 1) ∷ []; appended = refl; sync = (refl, refl) })
  retry-Told (os_error ∷ tries) s v down h k =
      if_ind {A = NodeSession F} (λ r. Told s r v) (not s.supervise) _ _
        (λ _. record { more = []; appended = sym (append-nil s.calls); sync = still s v down h k })
        (λ _.
          let r = retry-Told tries _ v refl h (omega (arith, k)) in
          record { more = r.more; appended = r.appended; sync = r.sync })

  on_exit-Told :
      (s : NodeSession F) (v : NodeView) (now : F) (tries : List (Spawn F))
      → InSync s v
      → Told s (on_exit s now tries) v
  unfolding on_exit
  on_exit-Told s v now tries h =
      if_ind {A = NodeSession F} (λ r. Told s r v) s.supervise _ _
        (λ _.
          let call : Bool × ℕ = (false, s.restarts) in
          let r = retry-Told tries (lost s now) (on_node_state call) refl refl (omega arith) in
          record {
            more = call ∷ r.more;
            appended = r.appended ∙ append_assoc s.calls (call ∷ []) r.more;
            sync = r.sync;
          })
        (λ _. silent s v h)

  on_exit-InSync :
      (s : NodeSession F) (v : NodeView) (now : F) (tries : List (Spawn F))
      → InSync s v
      → (let t = on_exit s now tries in InSync t (tell v (drop (length s.calls) t.calls)))
  on_exit-InSync s v now tries h =
      let t = on_exit s now tries in
      let r = on_exit-Told s v now tries h in
      let e : drop (length s.calls) t.calls ≡ r.more =
        ap (drop (length s.calls)) r.appended ∙ drop-append s.calls r.more in
      rw e r.sync

  -- However often a node's session is lost, and whatever tries follow, the calls of its callback leave
  -- the engine telling the node up just when the session is, then with the session's number of
  -- restarts, and with at most that number when it is down. (When it did so before.)
  pub watch_all-InSync :
      (s : NodeSession F) (v : NodeView) (exits : List (F × List (Spawn F)))
      → InSync s v
      → (let r = watch_all (s, v) exits in InSync r.0 r.1)
  unfolding watch_all
  watch_all-InSync s v [] h = h
  watch_all-InSync s v ((now, tries) ∷ exits) h =
      let t = on_exit s now tries in
      watch_all-InSync t (tell v (drop (length s.calls) t.calls)) exits
        (on_exit-InSync s v now tries h)
