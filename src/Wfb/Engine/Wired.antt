-- ===== src/Wfb/Engine/Wired.antt =====
-- After a tick, the uplinks have the sockets of the transmitters that are wired.
use Prim.Native.String.{String}
use text.Mathlib.Text.{◌==◌ as str_eq}
use text.Mathlib.TextEquality.{eq_iff}
use mathlib.Core.Path.{subst}
use fpvd.Prelude.{
  ℕ, ◌≡◌, refl, sym, ap, ◌∙◌, Bool, true, false, ◌||◌, Option, none, some, List, [], ◌∷◌, ==_iff,
  arith, if◌then◌else◌, Bool-cases, inl, inr,
}
use fpvd.Prelude.Dict.{get_by, get_by-put_by}
use fpvd.Wfb.Engine.TxSockets.{
  TxParser, Children, Wiring, child_parser, or_first, chosen, tx_socket_for, is_empty, is_id,
  respawned, commit, is_changed, set_all, Connects, mav_set_tx_socket, apply_tx_selection,
  check_tx_respawns,
}
use fpvd.Prelude.Float.{Float}
use fpvd.Wfb.Tunnel.{TunnelService, set_tx_socket}
use fpvd.Wfb.Engine.Aims.{chosen-is_target, MavAim, TunnelAim, mav_set-aims, tunnel_set-aims}

-- A parser that has its sockets is the one that was wired, with P of its sockets.
abbrev pub Aimed : Option TxParser → Option ℕ → (List (ℕ × String) → Type 0) → Type 0
Aimed none known P = Unit
Aimed (some parser) known P = elim parser.unix_sockets [
  | [] ↦ Unit
  | e ∷ sockets ↦ (known ≡ some parser.id) × P (e ∷ sockets)
]

abbrev pub When : Bool → Type 0 → Type 0
When true A = A
When false A = Unit

-- A parser that has its sockets and was wired has P of them.
abbrev pub Kept : Option TxParser → Option ℕ → (List (ℕ × String) → Type 0) → Type 0
Kept none known P = Unit
Kept (some parser) known P = elim parser.unix_sockets [
  | [] ↦ Unit
  | e ∷ sockets ↦ When (is_id parser.id known) (P (e ∷ sockets))
]

abbrev pub wired_id : Option ℕ → Option ℕ → Option ℕ
wired_id none known = known
wired_id (some i) known = some i

is_id_eq : (i : ℕ) (known : Option ℕ) → is_id i known ≡ true → known ≡ some i
is_id_eq i none h = ground arith
is_id_eq i (some j) h = ap some (sym ((==_iff i j).0 h))

-- A leg after the commit, on its parser's sockets.
committed :
    (i : ℕ) (known : Option ℕ) (e : ℕ × String) (sockets : List (ℕ × String))
    → wired_id (if is_empty (e ∷ sockets) || is_id i known then none else some i) known ≡ some i
committed i known e sockets = elim (Bool-cases (is_id i known)) [
  | inl h ↦ rw h (is_id_eq i known h)
  | inr h ↦ rw h refl
]

mav_at :
    (c : Connects) (i : ℕ) (sockets : List (ℕ × String)) (known current : Option ℕ)
    → (let o : Option TxParser = some (record { id = i; unix_sockets = sockets }) in
        Aimed o
          (wired_id (respawned o known) known)
          (MavAim c (mav_set_tx_socket c.mavlink (tx_socket_for o current))))
mav_at c i [] known current = tt
mav_at c i (e ∷ sockets) known current = (
  committed i known e sockets,
  mav_set-aims c.mavlink (e ∷ sockets) (or_first (e ∷ sockets) (chosen current (e ∷ sockets)))
      (chosen-is_target e sockets current),
)

mav_retargeted :
    (c : Connects) (o : Option TxParser) (known current : Option ℕ)
    → Aimed o
        (wired_id (respawned o known) known)
        (MavAim c (mav_set_tx_socket c.mavlink (tx_socket_for o current)))
mav_retargeted c none known current = tt
mav_retargeted c (some parser) known current = mav_at c parser.id parser.unix_sockets known current

module _ {F : Type 0} ⦃fl : Float F⦄ where
  tunnel_at :
      (c : Connects) (i : ℕ) (sockets : List (ℕ × String)) (known current : Option ℕ)
      (t : TunnelService F)
      → (let o : Option TxParser = some (record { id = i; unix_sockets = sockets }) in
          Aimed o
            (wired_id (respawned o known) known)
            (TunnelAim c (set_all c o (set_tx_socket c.selected t (tx_socket_for o current)))))
  tunnel_at c i [] known current t = tt
  tunnel_at c i (e ∷ sockets) known current t = (
    committed i known e sockets,
    tunnel_set-aims c (e ∷ sockets) t (or_first (e ∷ sockets) (chosen current (e ∷ sockets)))
        (chosen-is_target e sockets current),
  )

  tunnel_retargeted :
      (c : Connects) (o : Option TxParser) (known current : Option ℕ) (t : TunnelService F)
      → Aimed o
          (wired_id (respawned o known) known)
          (TunnelAim c (set_all c o (set_tx_socket c.selected t (tx_socket_for o current))))
  tunnel_retargeted c none known current t = tt
  tunnel_retargeted c (some parser) known current t =
      tunnel_at c parser.id parser.unix_sockets known current t

some_not_none : {i : ℕ} → some i ≡ none → ⊥
some_not_none h = ground arith

-- A leg that was wired stays so.
kept_at :
    (i : ℕ) (sockets : List (ℕ × String)) (known : Option ℕ) (P : List (ℕ × String) → Type 0)
    → respawned (some (record { id = i; unix_sockets = sockets })) known ≡ none
    → Kept (some (record { id = i; unix_sockets = sockets })) known P
    → Aimed (some (record { id = i; unix_sockets = sockets })) known P
kept_at i [] known P h k = tt
kept_at i (e ∷ sockets) known P h k = elim (Bool-cases (is_id i known)) [
  | inl b ↦ (is_id_eq i known b, subst (λ c. When c (P (e ∷ sockets))) b k)
  | inr b ↦ absurd (some_not_none (ap (λ c. if c then none else some i) (sym b) ∙ h))
]

kept :
    (o : Option TxParser) (known : Option ℕ) (P : List (ℕ × String) → Type 0)
    → respawned o known ≡ none
    → Kept o known P
    → Aimed o known P
kept none known P h k = tt
kept (some parser) known P h k = kept_at parser.id parser.unix_sockets known P h k

commit-get_by :
    (name k : String) (r : Option ℕ) (ids : List (String × ℕ))
    → get_by str_eq k (commit name r ids)
      ≡ (if str_eq name k then wired_id r (get_by str_eq k ids) else get_by str_eq k ids)
commit-get_by name k none ids = elim (Bool-cases (str_eq name k)) [
  | inl e ↦ rw e refl
  | inr e ↦ rw e refl
]
commit-get_by name k (some i) ids = get_by-put_by str_eq eq_iff k name i ids

-- Both uplinks' legs.
abbrev pub AllAimed : {F : Type 0} → Connects → Children → Wiring F → Type 0
AllAimed c children w =
    Aimed (child_parser "mavlink_tx" children) (get_by str_eq "mavlink_tx" w.tx_parser_ids)
      (MavAim c w.mav_socket)
    × Aimed (child_parser "tunnel_tx" children) (get_by str_eq "tunnel_tx" w.tx_parser_ids)
        (TunnelAim c w.tunnel)

abbrev pub AllKept : {F : Type 0} → Connects → Children → Wiring F → Type 0
AllKept c children w =
    Kept (child_parser "mavlink_tx" children) (get_by str_eq "mavlink_tx" w.tx_parser_ids)
      (MavAim c w.mav_socket)
    × Kept (child_parser "tunnel_tx" children) (get_by str_eq "tunnel_tx" w.tx_parser_ids)
        (TunnelAim c w.tunnel)

abbrev pub mav_of : {F : Type 0} → Children → Wiring F → Option ℕ
mav_of children w =
    respawned (child_parser "mavlink_tx" children) (get_by str_eq "mavlink_tx" w.tx_parser_ids)

abbrev pub tunnel_of : {F : Type 0} → Children → Wiring F → Option ℕ
tunnel_of children w =
    respawned (child_parser "tunnel_tx" children) (get_by str_eq "tunnel_tx" w.tx_parser_ids)

unchanged : (a b : Option ℕ) → is_changed a b ≡ false → (a ≡ none) × (b ≡ none)
unchanged none none h = (refl, refl)
unchanged none (some b) h = ground arith
unchanged (some a) b h = ground arith

mav_known :
    (m t : Option ℕ) (ids : List (String × ℕ))
    → get_by str_eq "mavlink_tx" (commit "tunnel_tx" t (commit "mavlink_tx" m ids))
      ≡ wired_id m (get_by str_eq "mavlink_tx" ids)
mav_known m t ids =
    commit-get_by "tunnel_tx" "mavlink_tx" t (commit "mavlink_tx" m ids)
    ∙ commit-get_by "mavlink_tx" "mavlink_tx" m ids

tunnel_known :
    (m t : Option ℕ) (ids : List (String × ℕ))
    → get_by str_eq "tunnel_tx" (commit "tunnel_tx" t (commit "mavlink_tx" m ids))
      ≡ wired_id t (get_by str_eq "tunnel_tx" ids)
tunnel_known m t ids =
    commit-get_by "tunnel_tx" "tunnel_tx" t (commit "mavlink_tx" m ids)
    ∙ ap (wired_id t) (commit-get_by "mavlink_tx" "tunnel_tx" m ids)

module _ {F : Type 0} ⦃fl : Float F⦄ where
  -- After a tick each transmitter that has its sockets is wired, and both its uplinks send to one of
  -- these sockets, or to none, which happens only when one of them refused a connect of the tick; the
  -- tunnel's sockets have just the names that accepted, and its current one is one of them. (When this held, with the same outcomes of the
  -- connects, of the parsers that were wired before.)
  pub check_tx_respawns-AllAimed :
      (c : Connects) (children : Children) (current : Option ℕ) (w : Wiring F)
      → AllKept c children w
      → AllAimed c children (check_tx_respawns c children current w)
  unfolding check_tx_respawns apply_tx_selection
  check_tx_respawns-AllAimed c children current w h =
      elim (Bool-cases (is_changed (mav_of children w) (tunnel_of children w))) [
        | inl e ↦
            let m = mav_of children w in
            let t = tunnel_of children w in
            let mav = child_parser "mavlink_tx" children in
            let tunnel = child_parser "tunnel_tx" children in
            rw (e, mav_known m t w.tx_parser_ids, tunnel_known m t w.tx_parser_ids)
              (
                mav_retargeted c mav (get_by str_eq "mavlink_tx" w.tx_parser_ids) current,
                tunnel_retargeted c tunnel (get_by str_eq "tunnel_tx" w.tx_parser_ids) current
                    w.tunnel,
              )
        | inr e ↦
            let none_of = unchanged (mav_of children w) (tunnel_of children w) e in
            rw e (
              kept (child_parser "mavlink_tx" children) _ (MavAim c w.mav_socket) none_of.0 h.0,
              kept (child_parser "tunnel_tx" children) _ (TunnelAim c w.tunnel) none_of.1 h.1,
            )
      ]
