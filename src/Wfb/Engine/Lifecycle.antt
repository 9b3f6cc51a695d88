-- ===== src/Wfb/Engine/Lifecycle.antt =====
-- `start`, `stop` and `restart`, and from which configuration an incarnation is built. The provider
-- answers the committed configuration; `none` is an exception. `ok` is what the rest of `_setup` answers.
use fpvd.Prelude.{
  ℕ, ◌+◌, ◌≡◌, refl, sym, ap, ◌∙◌, Bool, true, false, Option, none, some, List, [], ◌∷◌, ◌++◌,
  if◌then◌else◌,
}
use mathlib.Core.List.{append_assoc, append-nil}

-- `built` are the configurations of the incarnations, the oldest first.
pub record Lifecycle (C : Type 0) : Type 0 where
  pub thread : Bool
  pub start_ok : Bool
  pub staged : Option C
  pub restarts : ℕ
  pub built : List C

-- A call from outside, with what the provider and `_setup` answer.
pub data Op (C : Type 0) : Type 0 where
  start_op : Option C → Bool → Op C
  stop_op : Op C
  restart_op : Option C → Option C → Bool → Op C

module _ {C : Type 0} where
  abbrev pub staged_or : Option C → Option C → Option C
  staged_or none provided = provided
  staged_or (some cfg) provided = some cfg

  -- An incarnation; a failed setup ends its thread.
  abbrev pub incarnate : Lifecycle C → Option C → Bool → Lifecycle C
  incarnate l none ok = record l { thread = false; start_ok = false; staged = none }
  incarnate l (some cfg) ok = record l {
    thread = ok;
    start_ok = ok;
    staged = none;
    built = l.built ++ cfg ∷ [];
  }

  unfoldable pub start : Lifecycle C → Option C → Bool → Lifecycle C
  start l provided ok = if l.thread then l else incarnate l (staged_or l.staged provided) ok

  unfoldable pub stop : Lifecycle C → Lifecycle C
  stop l = record l { thread = false }

  unfoldable pub restart : Lifecycle C → Option C → Option C → Bool → Lifecycle C
  restart l config provided ok =
      start (record (stop l) { restarts = l.restarts + 1; staged = config }) provided ok

  abbrev pub operate : Lifecycle C → Op C → Lifecycle C
  operate l (start_op provided ok) = start l provided ok
  operate l stop_op = stop l
  operate l (restart_op config provided ok) = restart l config provided ok

  unfoldable pub operate_all : Lifecycle C → List (Op C) → Lifecycle C
  operate_all l [] = l
  operate_all l (op ∷ ops) = operate_all (operate l op) ops

  abbrev pub in_list : Option C → List C
  in_list none = []
  in_list (some cfg) = cfg ∷ []

  abbrev pub comes_up : Bool → Option C → Bool
  comes_up ok none = false
  comes_up ok (some cfg) = ok

  -- The configurations that the calls ask for: a restart's own, else the one that is committed; a start
  -- of a running engine asks for none.
  unfoldable pub asked : Bool → List (Op C) → List C
  asked running [] = []
  asked running (start_op provided ok ∷ ops) =
      if running then asked running ops else in_list provided ++ asked (comes_up ok provided) ops
  asked running (stop_op ∷ ops) = asked false ops
  asked running (restart_op config provided ok ∷ ops) =
      in_list (staged_or config provided) ++ asked (comes_up ok (staged_or config provided)) ops

  incarnate-built :
      (l : Lifecycle C) (o : Option C) (ok : Bool) (ops : List (Op C))
      → ((m : Lifecycle C)
          → m.staged ≡ none
          → (operate_all m ops).built ≡ m.built ++ asked m.thread ops)
      → (operate_all (incarnate l o ok) ops).built
        ≡ l.built ++ (in_list o ++ asked (comes_up ok o) ops)
  incarnate-built l none ok ops k = k _ refl
  incarnate-built l (some cfg) ok ops k = k _ refl ∙ append_assoc l.built (cfg ∷ []) _

  in_either :
      (f : Lifecycle C → List C) (b : Bool) (x y : Lifecycle C) (before u v : List C)
      → f x ≡ before ++ u
      → f y ≡ before ++ v
      → f (if b then x else y) ≡ before ++ (if b then u else v)
  in_either f true x y before u v h k = h
  in_either f false x y before u v h k = k

  -- Whatever sequence of starts, stops and restarts, the engine builds from the configurations that the
  -- calls ask for, in order: one that a restart was given is used once, and never by a later start.
  pub operate_all-Asked :
      (ops : List (Op C)) (l : Lifecycle C)
      → l.staged ≡ none
      → (operate_all l ops).built ≡ l.built ++ asked l.thread ops
  unfolding operate_all asked start stop restart
  operate_all-Asked [] l h = sym (append-nil l.built)
  operate_all-Asked (start_op provided ok ∷ ops) l h =
      in_either (λ m. (operate_all m ops).built) l.thread l
        (incarnate l (staged_or l.staged provided) ok) l.built (asked l.thread ops)
        (in_list provided ++ asked (comes_up ok provided) ops) (operate_all-Asked ops l h)
        (ap (λ o. (operate_all (incarnate l (staged_or o provided) ok) ops).built) h
          ∙ incarnate-built l provided ok ops (λ m e. operate_all-Asked ops m e))
  operate_all-Asked (stop_op ∷ ops) l h = operate_all-Asked ops (stop l) h
  operate_all-Asked (restart_op config provided ok ∷ ops) l h =
      incarnate-built (record l { restarts = l.restarts + 1; staged = config })
        (staged_or config provided) ok ops (λ m e. operate_all-Asked ops m e)
