-- ===== src/Wfb/Tunnel/Fresh.antt =====
-- A set of tunnel sockets is always made of new connections.
use Prim.Native.String.{String}
use text.Mathlib.Text.{◌==◌ as str_eq}
use fpvd.Prelude.{
  ℕ, ◌+◌, ◌≤◌, ◌≡◌, ap, refl, Bool, Option, none, some, List, [], ◌∷◌, ◌++◌, arith, length,
  length-append, Bool-cases, if_ind, All, inl, inr,
}
use fpvd.Prelude.Float.{Float}
use fpvd.Wfb.Tunnel.{
  Socket, TunnelService, named, others, first, assign, assign_known, connect, reconnect, current_of,
  set_all_tx_sockets,
}

-- Connected at `base` or later.
abbrev pub IsFresh : ℕ → Socket → Type 0
IsFresh base s = base ≤ s.id

abbrev pub FirstIsFresh : ℕ → Option Socket → Type 0
FirstIsFresh base none = Unit
FirstIsFresh base (some s) = IsFresh base s

named-others :
    (name : String) (ss : List Socket)
    → length (named name ss) + length (others name ss) ≡ length ss
named-others name [] = omega arith
named-others name (s ∷ ss) = ground (arith, named-others name ss)

assign-IsFresh :
    (base : ℕ) (k : Socket) (ss : List Socket)
    → IsFresh base k
    → All (IsFresh base) ss
    → All (IsFresh base) (assign k ss)
assign-IsFresh base k [] h a = (h, tt)
assign-IsFresh base k (s ∷ ss) h a =
    if_ind (All (IsFresh base)) (str_eq s.name k.name) (k ∷ ss) (s ∷ assign k ss) (λ _. (h, a.1))
      (λ _. (a.0, assign-IsFresh base k ss h a.1))

named-IsFresh :
    (base : ℕ) (name : String) (ss : List Socket)
    → All (IsFresh base) ss
    → All (IsFresh base) (named name ss)
named-IsFresh base name [] a = tt
named-IsFresh base name (s ∷ ss) a =
    if_ind (All (IsFresh base)) (str_eq s.name name) (s ∷ named name ss) (named name ss)
      (λ _. (a.0, named-IsFresh base name ss a.1)) (λ _. named-IsFresh base name ss a.1)

first-IsFresh : (base : ℕ) (ss : List Socket) → All (IsFresh base) ss → FirstIsFresh base (first ss)
first-IsFresh base [] a = tt
first-IsFresh base (s ∷ ss) a = a.0

current_of-IsFresh :
    (base : ℕ) (current : Option Socket) (ss : List Socket)
    → All (IsFresh base) ss
    → FirstIsFresh base (current_of current ss)
current_of-IsFresh base none ss a = tt
current_of-IsFresh base (some k) ss a =
    first-IsFresh base (named k.name ss) (named-IsFresh base k.name ss a)

module _ {F : Type 0} ⦃fl : Float F⦄ where
  connect-IsFresh :
      (base : ℕ) (can : String → Bool) (s : TunnelService F) (name : String) (ss : List Socket)
      → base ≤ s.next_id
      → All (IsFresh base) ss
      → All (IsFresh base) (assign_known (connect can s name).1 ss)
        × (base ≤ (connect can s name).0.next_id)
        × ((connect can s name).0.closed ≡ s.closed)
  connect-IsFresh base can s name ss h a = elim (Bool-cases (can name)) [
    | inl e ↦ rw e (
      assign-IsFresh base (record { name = name; id = s.next_id }) ss h a,
      omega (arith, h),
      refl,
    )
    | inr e ↦ rw e (a, omega (arith, h), refl)
  ]

  -- The sockets of a pass through the names, and the count of those that are closed or to be closed.
  abbrev Reconnected :
      ℕ → TunnelService F → List Socket → TunnelService F × List Socket × List Socket → Type 0
  Reconnected base s old r =
      All (IsFresh base) r.2 × (length r.0.closed + length r.1 ≡ length s.closed + length old)

  reconnect-Reconnected :
      (base : ℕ) (can : String → Bool) (s : TunnelService F) (names : List String)
      (old new : List Socket)
      → base ≤ s.next_id
      → All (IsFresh base) new
      → Reconnected base s old (reconnect can s names old new)
  reconnect-Reconnected base can s [] old new h a = (a, refl)
  reconnect-Reconnected base can s (name ∷ names) old new h a =
      let t = record s { closed = s.closed ++ named name old } in
      let c = connect-IsFresh base can t name new h a in
      let r =
        reconnect-Reconnected base can (connect can t name).0 names (others name old)
          (assign_known (connect can t name).1 new) c.1 c.0 in
      (
        r.0,
        omega (
          arith,
          r.1,
          ap length c.2,
          length-append s.closed (named name old),
          named-others name old,
        ),
      )

  -- After the tx sockets are set, every one of them is a connection made since, the current one too,
  -- and as many sockets have been closed as there were before: a name that comes again after its
  -- process died never keeps the old connection.
  pub set_all_tx_sockets-IsFresh :
      (can : String → Bool) (s : TunnelService F) (names : List String)
      → let t = set_all_tx_sockets can s names in
        All (IsFresh s.next_id) t.tx_socks
        × FirstIsFresh s.next_id t.tx_sock
        × (length t.closed ≡ length s.closed + length s.tx_socks)
  unfolding set_all_tx_sockets
  set_all_tx_sockets-IsFresh can s names =
      let r = reconnect-Reconnected s.next_id can s names s.tx_socks [] (omega arith) tt in
      let x = reconnect can s names s.tx_socks [] in
      (
        r.0,
        current_of-IsFresh s.next_id s.tx_sock x.2 r.0,
        omega (arith, r.1, length-append x.0.closed x.1),
      )
