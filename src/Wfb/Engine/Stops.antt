-- ===== src/Wfb/Engine/Stops.antt =====
-- Which children a list of effects stops.
use Prim.Native.String.{String}
use text.Mathlib.Text.{◌==◌ as str_eq}
use text.Mathlib.TextEquality.{eq_iff}
use mathlib.Core.List.{reverse, append_assoc, Permᴰ}
use mathlib.Core.List.Permᴰ
use mathlib.Core.Path.{subst}
use fpvd.Prelude.{
  ℕ, ◌≡◌, refl, sym, ap, ◌∙◌, Bool, true, false, Option, none, some, List, [], ◌∷◌, ◌++◌, All, any,
  if◌then◌else◌, map, arith,
}
use fpvd.Prelude.Text.Laws.{All-append, All-reverse}
use fpvd.Wfb.Engine.Setup.{
  Engine, Effect, stop_child, stop_session, close_hub, stop_tunnel, stop_mav, stop_stats,
  cancel_tick, LegStart, Legs, construct_raised, start_raised, refused, up, when_on, close_effect,
  child_stops, after_leg, start_legs, stop_children, teardown,
}

-- The children that are stopped, in order.
unfoldable pub stopped : List Effect → List String
stopped [] = []
stopped (stop_child name ∷ effects) = name ∷ stopped effects
stopped (_ ∷ effects) = stopped effects

pub stopped-append : (xs ys : List Effect) → stopped (xs ++ ys) ≡ stopped xs ++ stopped ys
unfolding stopped
stopped-append [] ys = refl
stopped-append (stop_child name ∷ xs) ys = ap (λ l. name ∷ l) (stopped-append xs ys)
stopped-append (stop_session name ∷ xs) ys = stopped-append xs ys
stopped-append (close_hub hub ∷ xs) ys = stopped-append xs ys
stopped-append (stop_tunnel ∷ xs) ys = stopped-append xs ys
stopped-append (stop_mav ∷ xs) ys = stopped-append xs ys
stopped-append (stop_stats ∷ xs) ys = stopped-append xs ys
stopped-append (cancel_tick ∷ xs) ys = stopped-append xs ys

abbrev IsChild : List String → String → Type 0
IsChild children name = any (λ c. str_eq c name) children ≡ true

-- A list is a permutation of itself with the transmitters' names moved.
pub shuffle :
    (r t w i p : List String) → Permᴰ ((t ++ i) ++ (r ++ (w ++ p))) (r ++ (t ++ (w ++ (i ++ p))))
shuffle r t w i p = Permᴰ.trans (Permᴰ.append_comm (t ++ i) (r ++ (w ++ p))) (
    subst (λ l. Permᴰ l (r ++ (t ++ (w ++ (i ++ p))))) (sym (append_assoc r (w ++ p) (t ++ i)))
      (Permᴰ.append_left r (
        Permᴰ.trans (Permᴰ.append_comm (w ++ p) (t ++ i)) (
          subst (λ l. Permᴰ l (t ++ (w ++ (i ++ p)))) (sym (append_assoc t i (w ++ p)))
            (Permᴰ.append_left t (
              subst (λ l. Permᴰ l (w ++ (i ++ p))) (append_assoc i w p)
                (subst (λ l. Permᴰ ((i ++ w) ++ p) l) (append_assoc w i p)
                  (Permᴰ.append_right p (Permᴰ.append_comm i w)))))))))

stop_children-All :
    (children order : List String)
    → All (IsChild children) order
    → stopped (stop_children children order) ≡ order
unfolding stopped stop_children
stop_children-All children [] h = refl
stop_children-All children (name ∷ order) h =
    rw h.0 (ap (λ l. name ∷ l) (stop_children-All children order h.1))

more_children :
    (c : String) (children order : List String)
    → All (IsChild children) order
    → All (IsChild (c ∷ children)) order
more_children c children [] h = tt
more_children c children (name ∷ order) h =
    (ground (arith, h.0), more_children c children order h.1)

all_children : (children : List String) → All (IsChild children) children
all_children [] = tt
all_children (c ∷ children) =
    (rw ((eq_iff c c).1 refl) refl, more_children c children children (all_children children))

All-split : (P : String → Type 0) (xs ys : List String) → All P (xs ++ ys) → All P xs × All P ys
All-split P [] ys h = (tt, h)
All-split P (x ∷ xs) ys h = let r = All-split P xs ys h.1 in ((h.0, r.0), r.1)

after_leg-all :
    (o : LegStart) (name : String) (rest : Legs) (names : List String)
    → (rest.ok ≡ true → rest.children ≡ names)
    → (after_leg o name rest).ok ≡ true
    → (after_leg o name rest).children ≡ name ∷ names
after_leg-all construct_raised name rest names k h = ground arith
after_leg-all start_raised name rest names k h = ground arith
after_leg-all refused name rest names k h = ground arith
after_leg-all up name rest names k h = ap (λ l. name ∷ l) (k h)

pub start_legs-all :
    (o : String → LegStart) (names : List String)
    → (start_legs o names).ok ≡ true
    → (start_legs o names).children ≡ names
unfolding start_legs
start_legs-all o [] h = refl
start_legs-all o (name ∷ names) h =
    after_leg-all (o name) name (start_legs o names) names (start_legs-all o names) h

abbrev is_up : LegStart → Bool
is_up up = true
is_up _ = false

-- The legs before the first that does not come up.
abbrev pub came_up : (String → LegStart) → List String → List String
came_up o [] = []
came_up o (name ∷ names) = let rest = came_up o names in if is_up (o name) then name ∷ rest else []

-- The first leg that does not come up, with what its start did.
abbrev pub stopper : (String → LegStart) → List String → Option (String × LegStart)
stopper o [] = none
stopper o (name ∷ names) =
    let rest = stopper o names in if is_up (o name) then rest else some (name, o name)

-- It is kept only if its start answered False.
abbrev pub refuser : Option (String × LegStart) → List String
refuser none = []
refuser (some (name, refused)) = name ∷ []
refuser (some (name, _)) = []

after_leg-kept :
    (o : LegStart) (name : String) (rest : Legs) (ups : List String)
    (s : Option (String × LegStart))
    → rest.children ≡ ups ++ refuser s
    → (after_leg o name rest).children
      ≡ (if is_up o then name ∷ ups else []) ++ refuser (if is_up o then s else some (name, o))
after_leg-kept construct_raised name rest ups s h = refl
after_leg-kept start_raised name rest ups s h = refl
after_leg-kept refused name rest ups s h = refl
after_leg-kept up name rest ups s h = ap (λ l. name ∷ l) h

pub start_legs-kept :
    (o : String → LegStart) (names : List String)
    → (start_legs o names).children ≡ came_up o names ++ refuser (stopper o names)
unfolding start_legs
start_legs-kept o [] = refl
start_legs-kept o (name ∷ names) =
    after_leg-kept (o name) name (start_legs o names) (came_up o names) (stopper o names)
      (start_legs-kept o names)

pub stopped_all :
    (started : List String) → stopped (stop_children started (reverse started)) ≡ reverse started
stopped_all started =
    stop_children-All started (reverse started)
      (All-reverse (IsChild started) started (all_children started))

pub quiet-append : (xs ys : List Effect) → stopped xs ≡ [] → stopped (xs ++ ys) ≡ stopped ys
quiet-append xs ys h = stopped-append xs ys ∙ ap (λ l. l ++ stopped ys) h

stopped-sessions : (nodes : List String) → stopped (map stop_session nodes) ≡ []
unfolding stopped
stopped-sessions [] = refl
stopped-sessions (node ∷ nodes) = stopped-sessions nodes

-- An effect that stops no child.
stopped-when_on : (b : Bool) (x : Effect) → stopped (x ∷ []) ≡ [] → stopped (when_on b x) ≡ []
unfolding stopped
stopped-when_on true x h = h
stopped-when_on false x h = refl

stopped-close : (hub : Option ℕ) → stopped (close_effect hub) ≡ []
unfolding stopped
stopped-close none = refl
stopped-close (some h) = refl

pub stopped-teardown :
    (e : Engine) → stopped (teardown e).effects ≡ stopped e.effects ++ stopped (child_stops e)
unfolding teardown
stopped-teardown e =
    let t = child_stops e in
    let t5 = when_on e.mav_service stop_mav ++ t in
    let t4 = when_on e.stats_server stop_stats ++ t5 in
    let t3 = when_on e.tick_task cancel_tick ++ t4 in
    let t2 = close_effect e.hub ++ t3 in
    let t1 = map stop_session e.node_sessions ++ t2 in
    stopped-append e.effects (when_on e.tunnel_service stop_tunnel ++ t1)
    ∙ ap (λ l. stopped e.effects ++ l)
        (quiet-append (when_on e.tunnel_service stop_tunnel) t1
            (stopped-when_on e.tunnel_service stop_tunnel (unfold stopped in refl))
          ∙ quiet-append (map stop_session e.node_sessions) t2 (stopped-sessions e.node_sessions)
          ∙ quiet-append (close_effect e.hub) t3 (stopped-close e.hub)
          ∙ quiet-append (when_on e.tick_task cancel_tick) t4
              (stopped-when_on e.tick_task cancel_tick (unfold stopped in refl))
          ∙ quiet-append (when_on e.stats_server stop_stats) t5
              (stopped-when_on e.stats_server stop_stats (unfold stopped in refl))
          ∙ quiet-append (when_on e.mav_service stop_mav) t
              (stopped-when_on e.mav_service stop_mav (unfold stopped in refl)))

-- The names of every leg are among the children, in both lists of the teardown.
pub stopped-children :
    (t i r w p : List String)
    → (let legs = r ++ (t ++ (w ++ (i ++ p))) in
        stopped (stop_children legs (t ++ i) ++ stop_children legs (r ++ (w ++ p)))
        ≡ (t ++ i) ++ (r ++ (w ++ p)))
stopped-children t i r w p =
    let legs = r ++ (t ++ (w ++ (i ++ p))) in
    let c = IsChild legs in
    let a = All-split c r (t ++ (w ++ (i ++ p))) (all_children legs) in
    let b = All-split c t (w ++ (i ++ p)) a.1 in
    let d = All-split c w (i ++ p) b.1 in
    let f = All-split c i p d.1 in
    stopped-append (stop_children legs (t ++ i)) (stop_children legs (r ++ (w ++ p)))
    ∙ ap (λ l. l ++ stopped (stop_children legs (r ++ (w ++ p))))
        (stop_children-All legs (t ++ i) (All-append c t i b.0 f.0))
    ∙ ap (λ l. (t ++ i) ++ l)
        (stop_children-All legs (r ++ (w ++ p))
          (All-append c r (w ++ p) a.0 (All-append c w p d.0 f.1)))
