-- ===== src/Wfb/Tunnel/Covers.antt =====
-- Which names the tunnel's sockets have after they are all connected anew.
use Prim.Native.String.{String}
use text.Mathlib.Text.{◌==◌ as str_eq}
use text.Mathlib.TextEquality.{eq_iff}
use mathlib.Core.List.{Mem, mem-cons_self, mem-cons_of_mem}
use fpvd.Prelude.{
  ◌≡◌, ◌∙◌, ap, refl, Bool, true, false, ◌||◌, ◌&&◌, ◌⊎◌, Option, none, some, List, [], ◌∷◌, ◌++◌,
  arith, All, any, Bool-cases, inl, inr, if◌then◌else◌,
}
use fpvd.Prelude.Float.{Float}
use fpvd.Wfb.Tunnel.{
  Socket, TunnelService, named, others, first, assign, assign_known, connect, reconnect, current_of,
  set_tx_socket, set_all_tx_sockets,
}

-- A socket of the name is there.
abbrev pub has : String → List Socket → Bool
has n socks = any (λ s. str_eq s.name n) socks

abbrev pub mem : String → List String → Bool
mem n names = any (λ m. str_eq m n) names

assign-has :
    (k : Socket) (ss : List Socket) (n : String)
    → has n (assign k ss) ≡ (str_eq k.name n || has n ss)
assign-has k [] n = refl
assign-has k (s ∷ ss) n = elim (Bool-cases (str_eq s.name k.name)) [
  | inl e ↦ let same : s.name ≡ k.name = (eq_iff s.name k.name).0 e in rw (e, same) (ground arith)
  | inr e ↦ rw e (ground (arith, assign-has k ss n))
]

swap_name : (can : String → Bool) (m n : String) → (str_eq m n && can m) ≡ (str_eq m n && can n)
swap_name can m n = elim (Bool-cases (str_eq m n)) [
  | inl e ↦ let same : m ≡ n = (eq_iff m n).0 e in ap (λ x. str_eq m n && can x) same
  | inr e ↦ rw e refl
]

both : (a b m h : Bool) → ((m && b) || ((a && b) || h)) ≡ (((a || m) && b) || h)
both a b m h = ground arith

module _ {F : Type 0} ⦃fl : Float F⦄ where
  connect-has :
      (can : String → Bool) (s : TunnelService F) (name : String) (ss : List Socket) (n : String)
      → has n (assign_known (connect can s name).1 ss) ≡ ((str_eq name n && can name) || has n ss)
  connect-has can s name ss n = elim (Bool-cases (can name)) [
    | inl e ↦ rw e (assign-has (record { name = name; id = s.next_id }) ss n ∙ ground arith)
    | inr e ↦ rw e (ground arith)
  ]

  reconnect-has :
      (can : String → Bool) (s : TunnelService F) (names : List String) (old new : List Socket)
      (n : String)
      → has n (reconnect can s names old new).2 ≡ ((mem n names && can n) || has n new)
  reconnect-has can s [] old new n = refl
  reconnect-has can s (name ∷ names) old new n =
      let t = record s { closed = s.closed ++ named name old } in
      reconnect-has can (connect can t name).0 names (others name old)
        (assign_known (connect can t name).1 new) n
      ∙ ap (λ h. (mem n names && can n) || h)
          (connect-has can t name new n ∙ ap (λ b. b || has n new) (swap_name can name n))
      ∙ both (str_eq name n) (can n) (mem n names) (has n new)

  -- The sockets that are set: those of the names that accept.
  pub set_all_tx_sockets-has :
      (can : String → Bool) (s : TunnelService F) (names : List String) (n : String)
      → has n (set_all_tx_sockets can s names).tx_socks ≡ (mem n names && can n)
  unfolding set_all_tx_sockets
  set_all_tx_sockets-has can s names n = reconnect-has can s names s.tx_socks [] n ∙ ground arith

  -- The current socket is that of its name among the new ones.
  pub set_all_tx_sockets-current :
      (can : String → Bool) (s : TunnelService F) (names : List String)
      → (let t = set_all_tx_sockets can s names in t.tx_sock ≡ current_of s.tx_sock t.tx_socks)
  unfolding set_all_tx_sockets
  set_all_tx_sockets-current can s names = refl

abbrev pub sock_name : Option Socket → Option String
sock_name none = none
sock_name (some s) = some s.name

-- The first socket of a name has it, and is there when the name is.
pub first-named :
    (n : String) (ss : List Socket)
    → sock_name (first (named n ss)) ≡ (if has n ss then some n else none)
first-named n [] = refl
first-named n (s ∷ ss) = elim (Bool-cases (str_eq s.name n)) [
  | inl e ↦ rw e (ap some ((eq_iff s.name n).0 e))
  | inr e ↦ rw e (first-named n ss)
]

-- A current socket is one of those that are open.
abbrev pub IsAmong : List Socket → Option Socket → Type 0
IsAmong socks none = Unit
IsAmong socks (some s) = Mem s socks

more-IsAmong :
    (k : Socket) (socks : List Socket) (o : Option Socket) → IsAmong socks o → IsAmong (k ∷ socks) o
more-IsAmong k socks none h = tt
more-IsAmong k socks (some s) h = mem-cons_of_mem k h

first-IsAmong : (n : String) (socks : List Socket) → IsAmong socks (first (named n socks))
first-IsAmong n [] = tt
first-IsAmong n (s ∷ socks) = elim (Bool-cases (str_eq s.name n)) [
  | inl e ↦ rw e mem-cons_self
  | inr e ↦ rw e (more-IsAmong s socks (first (named n socks)) (first-IsAmong n socks))
]

pub current_of-IsAmong :
    (cur : Option Socket) (socks : List Socket) → IsAmong socks (current_of cur socks)
current_of-IsAmong none socks = tt
current_of-IsAmong (some s) socks = first-IsAmong s.name socks

-- The sockets have the names that accept, and no others.
pub record Covers (can : String → Bool) (names : List String) (socks : List Socket) : Type 0 where
  pub each : All (λ n. has n socks ≡ can n) names
  pub only : All (λ s. mem s.name names ≡ true) socks

each_of :
    (can : String → Bool) (all names : List String) (socks : List Socket)
    → ((n : String) → has n socks ≡ (mem n all && can n))
    → All (λ n. mem n all ≡ true) names
    → All (λ n. has n socks ≡ can n) names
each_of can all [] socks h a = tt
each_of can all (n ∷ names) socks h a =
    (h n ∙ ap (λ b. b && can n) a.0, each_of can all names socks h a.1)

more_mem :
    (m : String) (all names : List String)
    → All (λ n. mem n all ≡ true) names
    → All (λ n. mem n (m ∷ all) ≡ true) names
more_mem m all [] a = tt
more_mem m all (n ∷ names) a = (ground (arith, a.0), more_mem m all names a.1)

all_mem : (names : List String) → All (λ n. mem n names ≡ true) names
all_mem [] = tt
all_mem (n ∷ names) = (rw ((eq_iff n n).1 refl) refl, more_mem n names names (all_mem names))

more_has :
    (k : Socket) (socks rest : List Socket)
    → All (λ s. has s.name socks ≡ true) rest
    → All (λ s. has s.name (k ∷ socks) ≡ true) rest
more_has k socks [] a = tt
more_has k socks (s ∷ rest) a = (ground (arith, a.0), more_has k socks rest a.1)

all_has : (socks : List Socket) → All (λ s. has s.name socks ≡ true) socks
all_has [] = tt
all_has (s ∷ socks) =
    (rw ((eq_iff s.name s.name).1 refl) refl, more_has s socks socks (all_has socks))

only_of :
    (can : String → Bool) (names : List String) (socks rest : List Socket)
    → ((n : String) → has n socks ≡ (mem n names && can n))
    → All (λ s. has s.name socks ≡ true) rest
    → All (λ s. mem s.name names ≡ true) rest
only_of can names socks [] h a = tt
only_of can names socks (s ∷ rest) h a =
    (ground (arith, h s.name, a.0), only_of can names socks rest h a.1)

pub has-Covers :
    (can : String → Bool) (names : List String) (socks : List Socket)
    → ((n : String) → has n socks ≡ (mem n names && can n))
    → Covers can names socks
has-Covers can names socks h = record {
  each = each_of can names names socks h (all_mem names);
  only = only_of can names socks socks h (all_has socks);
}

module _ {F : Type 0} ⦃fl : Float F⦄ where
  -- The selected socket is the current one, unless it refuses.
  pub set_tx_socket-current :
      (can : String → Bool) (s : TunnelService F) (n : String)
      → (sock_name (set_tx_socket can s (some n)).tx_sock ≡ some n) ⊎ (can n ≡ false)
  unfolding set_tx_socket
  set_tx_socket-current can s n = elim (Bool-cases (can n)) [
    | inl e ↦ inl (rw e refl)
    | inr e ↦ inr e
  ]
