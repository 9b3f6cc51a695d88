-- ===== src/Dynlink/Knee/Order.antt =====
-- The effective knees: a ladder that never falls, and which rungs have one.
use fpvd.Prelude.{
  ℕ, zero, suc, ◌≤◌, ◌<◌, ◌≡◌, refl, Bool, true, false, Option, none, some, List, [], ◌∷◌, arith,
  ltb, length, get_or, is_some, Bool-cases, inl, inr,
}
use fpvd.Prelude.Int.{pos}
use fpvd.Prelude.Float.{Float, IsOrdered}
use fpvd.Dynlink.Knee.{
  KneeModel, HasRungs, eff_from, eff_knees, grow, below, rung_unviable, rung_confident, max_mcs,
}

-- `a` is no larger than `b`, where there is a `b`.
abbrev pub AtMost : {F : Type 0} → Float F → F → Option F → Type 0
AtMost fl a none = Unit
AtMost fl a (some b) = fl.le a b ≡ true

-- Where both rungs have a knee, the lower rung's is at most the higher one's.
abbrev pub LeKnee : {F : Type 0} → Float F → Option F → Option F → Type 0
LeKnee fl none _ = Unit
LeKnee fl (some a) b = AtMost fl a b

module _ {F : Type 0} ⦃fl : Float F⦄ (ord : IsOrdered fl) where
  grow-le_left : (r k : F) → fl.le r (grow (some r) k) ≡ true
  grow-le_left r k = ground (arith, ord.lt_not_le r k, ord.le_refl r, ord.le_total r k)

  AtMost-trans : (a b : F) (o : Option F) → fl.le a b ≡ true → AtMost fl b o → AtMost fl a o
  AtMost-trans a b none h k = tt
  AtMost-trans a b (some c) h k = ord.le_trans a b c h k

  -- What the loop returns lies above the largest knee that it has met.
  eff_from-AtMost :
      (least r : F) (ks : List (Option F)) (cs : List F) (i : ℕ)
      → AtMost fl r (get_or (eff_from least (some r) ks cs) i none)
  unfolding eff_from
  eff_from-AtMost least r [] cs i = tt
  eff_from-AtMost least r (k ∷ ks) [] i = tt
  eff_from-AtMost least r (none ∷ ks) (c ∷ cs) zero = tt
  eff_from-AtMost least r (none ∷ ks) (c ∷ cs) (suc i) = eff_from-AtMost least r ks cs i
  eff_from-AtMost least r (some k ∷ ks) (c ∷ cs) zero = elim (Bool-cases (fl.le least c)) [
    | inl e ↦ rw (e, eff_from) (grow-le_left r k)
    | inr e ↦ rw (e, eff_from) tt
  ]
  eff_from-AtMost least r (some k ∷ ks) (c ∷ cs) (suc i) = elim (Bool-cases (fl.le least c)) [
    | inl e ↦
        rw (e, eff_from)
          (AtMost-trans r (grow (some r) k) _ (grow-le_left r k)
            (eff_from-AtMost least (grow (some r) k) ks cs i))
    | inr e ↦ rw (e, eff_from) (eff_from-AtMost least r ks cs i)
  ]

  eff_from-LeKnee :
      (least : F) (run : Option F) (ks : List (Option F)) (cs : List F) (i j : ℕ)
      → i ≤ j
      → LeKnee fl
          (get_or (eff_from least run ks cs) i none)
          (get_or (eff_from least run ks cs) j none)
  unfolding eff_from
  eff_from-LeKnee least run [] cs i j h = tt
  eff_from-LeKnee least run (k ∷ ks) [] i j h = tt
  eff_from-LeKnee least run (none ∷ ks) (c ∷ cs) zero j h = tt
  eff_from-LeKnee least run (none ∷ ks) (c ∷ cs) (suc i) zero h = absurd (omega arith)
  eff_from-LeKnee least run (none ∷ ks) (c ∷ cs) (suc i) (suc j) h =
      eff_from-LeKnee least run ks cs i j (omega arith)
  eff_from-LeKnee least run (some k ∷ ks) (c ∷ cs) zero zero h = elim (Bool-cases (fl.le least c)) [
    | inl e ↦ rw (e, eff_from) (ord.le_refl (grow run k))
    | inr e ↦ rw (e, eff_from) tt
  ]
  eff_from-LeKnee least run (some k ∷ ks) (c ∷ cs) zero (suc j) h =
      elim (Bool-cases (fl.le least c)) [
        | inl e ↦ rw (e, eff_from) (eff_from-AtMost least (grow run k) ks cs j)
        | inr e ↦ rw (e, eff_from) tt
      ]
  eff_from-LeKnee least run (some k ∷ ks) (c ∷ cs) (suc i) zero h = absurd (omega arith)
  eff_from-LeKnee least run (some k ∷ ks) (c ∷ cs) (suc i) (suc j) h =
      elim (Bool-cases (fl.le least c)) [
        | inl e ↦
            rw (e, eff_from) (eff_from-LeKnee least (some (grow run k)) ks cs i j (omega arith))
        | inr e ↦ rw (e, eff_from) (eff_from-LeKnee least run ks cs i j (omega arith))
      ]

  -- With floats in order, the effective knees do not fall from a rung to a higher one, wherever
  -- both rungs have one.
  pub eff_knees_monotone :
      (m : KneeModel F) (i j : ℕ) (a b : F)
      → i ≤ j
      → get_or (eff_knees m) i none ≡ some a
      → get_or (eff_knees m) j none ≡ some b
      → fl.le a b ≡ true
  unfolding eff_knees
  eff_knees_monotone m i j a b h ea eb =
      rw ea at (rw eb at (eff_from-LeKnee m.cfg.min_samples none m.knee m.count i j h))

-- The rung's own knee is known and has `least` samples.
abbrev pub own_confident : {F : Type 0} → Float F → F → Option F → F → Bool
own_confident fl least none c = false
own_confident fl least (some k) c = fl.le least c

module _ {F : Type 0} ⦃fl : Float F⦄ where
  eff_from_own :
      (least zero_count : F) (run : Option F) (ks : List (Option F)) (cs : List F) (i : ℕ)
      → length ks ≡ length cs
      → i < length ks
      → is_some (get_or (eff_from least run ks cs) i none)
        ≡ own_confident fl least (get_or ks i none) (get_or cs i zero_count)
  unfolding eff_from
  eff_from_own least z run [] cs i e h = elim h [ ]
  eff_from_own least z run (k ∷ ks) [] i e h = absurd (omega arith)
  eff_from_own least z run (none ∷ ks) (c ∷ cs) zero e h = refl
  eff_from_own least z run (none ∷ ks) (c ∷ cs) (suc i) e h =
      eff_from_own least z run ks cs i (omega arith) (omega arith)
  eff_from_own least z run (some k ∷ ks) (c ∷ cs) zero e h = ground arith
  eff_from_own least z run (some k ∷ ks) (c ∷ cs) (suc i) e h = elim (Bool-cases (fl.le least c)) [
    | inl t ↦
        rw (t, eff_from)
          (eff_from_own least z (some (grow run k)) ks cs i (omega arith) (omega arith))
    | inr t ↦ rw (t, eff_from) (eff_from_own least z run ks cs i (omega arith) (omega arith))
  ]

  -- A rung up to `max_mcs` is confident exactly when its own knee is known and has `min_samples`
  -- observations: a lower rung's knee is not inherited. (The model has an entry for each rung.)
  pub rung_confident_own :
      (m : KneeModel F) (rung : ℕ)
      → HasRungs m
      → rung ≤ max_mcs
      → rung_confident m rung
        ≡ own_confident fl m.cfg.min_samples
            (get_or m.knee rung none)
            (get_or m.count rung (fl.of_int (pos 0)))
  unfolding rung_confident eff_knees
  rung_confident_own m rung len h =
      let e : ltb max_mcs rung ≡ false = ground arith in
      rw e (
        eff_from_own m.cfg.min_samples (fl.of_int (pos 0)) none m.knee m.count rung
          (omega (arith, len.knee_len, len.count_len)) (omega (arith, len.knee_len)))

  below-false : (o : Option F) (value margin : F) → is_some o ≡ false → below o value margin ≡ false
  below-false none value margin h = refl
  below-false (some k) value margin h = cc

  -- A rung that is not confident is never called unviable, whatever the SNR and the margin.
  pub cold_rung_viable :
      (m : KneeModel F) (rung : ℕ) (value margin : F)
      → rung_confident m rung ≡ false
      → rung_unviable m rung value margin ≡ false
  unfolding rung_confident rung_unviable
  cold_rung_viable m rung value margin h = elim (Bool-cases (ltb max_mcs rung)) [
    | inl e ↦ rw e
    | inr e ↦ rw e (below-false (get_or (eff_knees m) rung none) value margin (rw e at h))
  ]

module _ {F : Type 0} ⦃fl : Float F⦄ (ord : IsOrdered fl)
    (sub_antitone : (k a b : F) → fl.le a b ≡ true → fl.le (fl.sub k b) (fl.sub k a) ≡ true) where
  below_wider :
      (o : Option F) (value narrow wide : F)
      → fl.le narrow wide ≡ true
      → below o value wide ≡ true
      → below o value narrow ≡ true
  below_wider none value narrow wide h t = t
  below_wider (some k) value narrow wide h t = elim (Bool-cases (fl.le (fl.sub k narrow) value)) [
    | inl le ↦
        let le' : fl.le (fl.sub k wide) value ≡ true =
          ord.le_trans (fl.sub k wide) (fl.sub k narrow) value (sub_antitone k narrow wide h) le in
        ground (arith, ord.lt_not_le value (fl.sub k wide))
    | inr no_le ↦ ground (arith, ord.lt_not_le value (fl.sub k narrow))
  ]

  -- The dead band of the signed margins, for floats in order whose subtraction is antitone: a rung
  -- that the demote margin calls unviable is also vetoed by any smaller margin, the negative promote
  -- margin among them, so a demote is not undone at the same SNR.
  pub rung_unviable_dead_band :
      (m : KneeModel F) (rung : ℕ) (value promote demote : F)
      → fl.le promote demote ≡ true
      → rung_unviable m rung value demote ≡ true
      → rung_unviable m rung value promote ≡ true
  unfolding rung_unviable
  rung_unviable_dead_band m rung value promote demote h t = elim (Bool-cases (ltb max_mcs rung)) [
    | inl e ↦ cc (rw e at t)
    | inr e ↦ rw e (below_wider (get_or (eff_knees m) rung none) value promote demote h (rw e at t))
  ]
