-- ===== src/Wfb/Engine/Aims.antt =====
-- What an uplink that is connected anew sends to.
use Prim.Native.String.{String}
use text.Mathlib.Text.{◌==◌ as str_eq}
use text.Mathlib.TextEquality.{eq_iff}
use mathlib.Core.Path.{subst}
use fpvd.Prelude.{
  ℕ, ◌≡◌, refl, sym, ap, ◌∙◌, Bool, true, false, ◌||◌, ◌&&◌, not, ◌⊎◌, Option, none, some, List, [],
  ◌∷◌, ◌==◌, arith, any, if_ind, Bool-cases, inl, inr,
}
use fpvd.Prelude.Dict.{get_by}
use fpvd.Wfb.Engine.TxSockets.{values, first_of, or_first, chosen, Connects, mav_set_tx_socket}
use fpvd.Prelude.Float.{Float}
use fpvd.Wfb.Tunnel.{Socket, TunnelService, current_of, set_tx_socket, set_all_tx_sockets}
use fpvd.Wfb.Tunnel.Covers.{
  has, mem, sock_name, first-named, Covers, IsAmong, current_of-IsAmong, has-Covers,
  set_all_tx_sockets-has, set_all_tx_sockets-current, set_tx_socket-current,
}

abbrev pub is_target : List (ℕ × String) → Option String → Bool
is_target sockets none = false
is_target sockets (some name) = any (λ e. str_eq e.1 name) sockets

-- A selection aims at one of the sockets, of whatever parser.
first-is_target :
    (e : ℕ × String) (sockets : List (ℕ × String))
    → is_target (e ∷ sockets) (first_of (e ∷ sockets)) ≡ true
first-is_target e sockets = rw ((eq_iff e.1 e.1).1 refl) refl

-- What a lookup finds is a socket.
abbrev IsFound : List (ℕ × String) → Option String → Type 0
IsFound sockets none = Unit
IsFound sockets (some name) = is_target sockets (some name) ≡ true

weaken :
    (e : ℕ × String) (sockets : List (ℕ × String)) (o : Option String)
    → IsFound sockets o
    → IsFound (e ∷ sockets) o
weaken e sockets none h = tt
weaken e sockets (some name) h = ground (arith, h)

get_by-IsFound :
    (wlan_id : ℕ) (sockets : List (ℕ × String)) → IsFound sockets (get_by ◌==◌ wlan_id sockets)
unfolding get_by
get_by-IsFound wlan_id [] = tt
get_by-IsFound wlan_id (e ∷ sockets) =
    if_ind {A = Option String} (IsFound (e ∷ sockets)) (e.0 == wlan_id) (some e.1)
      (get_by ◌==◌ wlan_id sockets) (λ _. first-is_target e sockets)
      (λ _. weaken e sockets (get_by ◌==◌ wlan_id sockets) (get_by-IsFound wlan_id sockets))

pub or_first-is_target :
    (e : ℕ × String) (sockets : List (ℕ × String)) (o : Option String)
    → IsFound (e ∷ sockets) o
    → is_target (e ∷ sockets) (or_first (e ∷ sockets) o) ≡ true
or_first-is_target e sockets none h = first-is_target e sockets
or_first-is_target e sockets (some name) h = h

chosen-IsFound :
    (current : Option ℕ) (sockets : List (ℕ × String)) → IsFound sockets (chosen current sockets)
chosen-IsFound none sockets = tt
chosen-IsFound (some wlan_id) sockets = get_by-IsFound wlan_id sockets

pub chosen-is_target :
    (e : ℕ × String) (sockets : List (ℕ × String)) (current : Option ℕ)
    → is_target (e ∷ sockets) (or_first (e ∷ sockets) (chosen current (e ∷ sockets))) ≡ true
chosen-is_target e sockets current =
    or_first-is_target e sockets (chosen current (e ∷ sockets))
      (chosen-IsFound current (e ∷ sockets))

abbrev pub refuses : (String → Bool) → List (ℕ × String) → Bool
refuses can sockets = any (λ e. not (can e.1)) sockets

-- One of the sockets, or none, which only a socket that refuses leads to.
abbrev pub aims : (String → Bool) → List (ℕ × String) → Option String → Bool
aims can sockets none = refuses can sockets
aims can sockets (some name) = is_target sockets (some name)

abbrev pub MavAim : Connects → Option String → List (ℕ × String) → Type 0
MavAim c target sockets = aims c.mavlink sockets target ≡ true

abbrev pub selects : Connects → String → Bool
selects c name = c.selected name && c.all name

abbrev pub TunnelAim : {F : Type 0} → Connects → TunnelService F → List (ℕ × String) → Type 0
TunnelAim c t sockets =
    (aims (selects c) sockets (sock_name t.tx_sock) ≡ true)
    × Covers c.all (values sockets) t.tx_socks
    × IsAmong t.tx_socks t.tx_sock

target-refuses :
    (can : String → Bool) (n : String) (sockets : List (ℕ × String))
    → is_target sockets (some n) ≡ true
    → can n ≡ false
    → refuses can sockets ≡ true
target-refuses can n [] h k = absurd (ground (arith, h))
target-refuses can n (e ∷ sockets) h k = elim (Bool-cases (str_eq e.1 n)) [
  | inl b ↦
      let same : e.1 ≡ n = (eq_iff e.1 n).0 b in
      let f : can e.1 ≡ false = ap can same ∙ k in ground (arith, f)
  | inr b ↦ let r = target-refuses can n sockets (ground (arith, h, b)) k in ground (arith, r)
]

pub mav_set-aims :
    (can : String → Bool) (sockets : List (ℕ × String)) (o : Option String)
    → is_target sockets o ≡ true
    → aims can sockets (mav_set_tx_socket can o) ≡ true
mav_set-aims can sockets none h = absurd (ground (arith, h))
mav_set-aims can sockets (some n) h = elim (Bool-cases (can n)) [
  | inl e ↦ rw e h
  | inr e ↦ rw e (target-refuses can n sockets h e)
]

mem-values :
    (n : String) (sockets : List (ℕ × String)) → mem n (values sockets) ≡ is_target sockets (some n)
mem-values n [] = refl
mem-values n (e ∷ sockets) = ap (λ b. str_eq e.1 n || b) (mem-values n sockets)

not_had : (a b : Bool) → (a && b) ≡ false → a ≡ true → b ≡ false
not_had a b h k = ground (arith, h, k)

no_both : (a b : Bool) → b ≡ false → (a && b) ≡ false
no_both a b h = ground (arith, h)

no_first : (a b : Bool) → a ≡ false → (a && b) ≡ false
no_first a b h = ground (arith, h)

had : (a b h : Bool) → h ≡ (a && b) → h ≡ true → a ≡ true
had a b h e k = ground (arith, e, k)

abbrev name_or : String → Option String → String
name_or n none = n
name_or n (some m) = m

-- The current socket, read again among the new ones: it had the selected name, or that refused.
current-aims :
    (c : Connects) (n : String) (sockets : List (ℕ × String)) (cur : Option Socket)
    (socks : List Socket)
    → is_target sockets (some n) ≡ true
    → ((m : String) → has m socks ≡ (mem m (values sockets) && c.all m))
    → (sock_name cur ≡ some n) ⊎ (c.selected n ≡ false)
    → aims (selects c) sockets (sock_name (current_of cur socks)) ≡ true
current-aims c n sockets none socks h k (inl e) = ground (arith, e)
current-aims c n sockets none socks h k (inr e) =
    target-refuses (selects c) n sockets h (no_first (c.selected n) (c.all n) e)
current-aims c n sockets (some s) socks h k w = elim (Bool-cases (has s.name socks)) [
  | inl e ↦
      rw (first-named s.name socks, e)
        (sym (mem-values s.name sockets)
          ∙ had (mem s.name (values sockets)) (c.all s.name) (has s.name socks) (k s.name) e)
  | inr e ↦
      rw (first-named s.name socks, e)
        (elim w [
          | inl same ↦
              let q : s.name ≡ n = ap (name_or n) same in
              let gone = sym (k n) ∙ ap (λ m. has m socks) (sym q) ∙ e in
              let f = not_had (mem n (values sockets)) (c.all n) gone (mem-values n sockets ∙ h) in
              target-refuses (selects c) n sockets h (no_both (c.selected n) (c.all n) f)
          | inr f ↦ target-refuses (selects c) n sockets h (no_first (c.selected n) (c.all n) f)
        ])
]

module _ {F : Type 0} ⦃fl : Float F⦄ where
  pub tunnel_set-aims :
      (c : Connects) (sockets : List (ℕ × String)) (t : TunnelService F) (o : Option String)
      → is_target sockets o ≡ true
      → TunnelAim c
          (set_all_tx_sockets c.all (set_tx_socket c.selected t o) (values sockets))
          sockets
  tunnel_set-aims c sockets t none h = absurd (ground (arith, h))
  tunnel_set-aims c sockets t (some n) h =
      let s = set_tx_socket c.selected t (some n) in
      let u = set_all_tx_sockets c.all s (values sockets) in
      let k = set_all_tx_sockets-has c.all s (values sockets) in
      (
        ap (λ cur. aims (selects c) sockets (sock_name cur))
              (set_all_tx_sockets-current c.all s (values sockets))
            ∙ current-aims c n sockets s.tx_sock u.tx_socks h k
                (set_tx_socket-current c.selected t n),
        has-Covers c.all (values sockets) u.tx_socks k,
        subst (IsAmong u.tx_socks) (sym (set_all_tx_sockets-current c.all s (values sockets)))
            (current_of-IsAmong s.tx_sock u.tx_socks),
      )
