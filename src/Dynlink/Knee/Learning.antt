-- ===== src/Dynlink/Knee/Learning.antt =====
-- `observe`: which entries change and how, and the round trip of the persisted document.
use fpvd.Prelude.{
  ℕ, zero, suc, ◌≤◌, ◌<◌, ◌≡◌, ◌≢◌, ◌⊎◌, ◌∙◌, refl, Bool, true, false, Option, none, some, List, [],
  ◌∷◌, map, arith, ltb, if◌then◌else◌, length, get_or, set, Bool-cases, inl, inr, length-set, ap,
}
use fpvd.Prelude.Int.{pos}
use fpvd.Prelude.Float.{Float, IsOrdered}
use fpvd.Dynlink.Knee.{
  LearnedPriorConfig, KneeModel, Doc, HasRungs, new, observe, learn, to_dict, load_dict, decay,
  max_mcs,
}

get_or-set_ne :
    {A : Type 0} (xs : List A) (i j : ℕ) (v d : A) → i ≢ j → get_or (set xs i v) j d ≡ get_or xs j d
get_or-set_ne [] i j v d h = refl
get_or-set_ne (x ∷ xs) zero zero v d h = absurd (h refl)
get_or-set_ne (x ∷ xs) zero (suc j) v d h = refl
get_or-set_ne (x ∷ xs) (suc i) zero v d h = refl
get_or-set_ne (x ∷ xs) (suc i) (suc j) v d h = get_or-set_ne xs i j v d (λ e. h (ap suc e))

get_or-set_self :
    {A : Type 0} (xs : List A) (i : ℕ) (v d : A) → i < length xs → get_or (set xs i v) i d ≡ v
get_or-set_self [] i v d h = elim h [ ]
get_or-set_self (x ∷ xs) zero v d h = refl
get_or-set_self (x ∷ xs) (suc i) v d h = get_or-set_self xs i v d (omega arith)

length-map : {A B : Type 0} (xs : List A) (f : A → B) → length (map f xs) ≡ length xs
length-map [] f = refl
length-map (x ∷ xs) f = ap suc (length-map xs f)

module _ {F : Type 0} ⦃fl : Float F⦄ where
  length-decay : (d : F) (counts : List F) → length (decay d counts) ≡ length counts
  length-decay d counts = ground (arith, length-map counts (λ c. fl.mul c d))

  pub new-HasRungs : (cfg : LearnedPriorConfig F) → HasRungs (new cfg)
  unfolding new
  new-HasRungs cfg = record { knee_len = refl; count_len = refl }

  -- `observe` keeps one entry for each rung in both lists.
  pub observe-HasRungs :
      (m : KneeModel F) (rung : ℕ) (value : F) (clean : Bool)
      → HasRungs m
      → HasRungs (observe m rung value clean)
  unfolding observe
  observe-HasRungs m rung value clean h = elim (Bool-cases (ltb max_mcs rung)) [
    | inl e ↦ rw e h
    | inr e ↦ rw e (record {
      knee_len = length-set m.knee rung _ ∙ h.knee_len;
      count_len =
          length-set (decay m.cfg.recency_decay m.count) rung _
          ∙ (length-decay m.cfg.recency_decay m.count ∙ h.count_len);
    })
  ]

  knee-observe :
      (m : KneeModel F) (rung : ℕ) (value : F) (clean : Bool)
      → rung ≤ max_mcs
      → (observe m rung value clean).knee
        ≡ set m.knee rung (learn m.cfg (get_or m.knee rung none) value clean)
  unfolding observe
  knee-observe m rung value clean h = let e : ltb max_mcs rung ≡ false = ground arith in rw e

  observe_beyond :
      (m : KneeModel F) (rung : ℕ) (value : F) (clean : Bool)
      → max_mcs < rung
      → observe m rung value clean ≡ m
  unfolding observe
  observe_beyond m rung value clean h = let e : ltb max_mcs rung ≡ true = ground arith in rw e

  -- Only the observed rung's knee can change, and for a rung beyond `max_mcs` no knee does.
  pub observe_local :
      (m : KneeModel F) (rung other : ℕ) (value : F) (clean : Bool)
      → (rung ≢ other) ⊎ (max_mcs < rung)
      → get_or (observe m rung value clean).knee other none ≡ get_or m.knee other none
  observe_local m rung other value clean (inl ne) = elim (Bool-cases (ltb max_mcs rung)) [
    | inl e ↦ rw (observe_beyond m rung value clean (ground arith))
    | inr e ↦
        rw (knee-observe m rung value clean (ground arith))
          (get_or-set_ne m.knee rung other _ none ne)
  ]
  observe_local m rung other value clean (inr h) = rw (observe_beyond m rung value clean h)

  -- The knee of a cold rung after one observation: a failure plants its value, and a clean sample
  -- leaves the rung cold. (The rung is one of the model's.)
  pub observe_cold :
      (m : KneeModel F) (rung : ℕ) (value : F) (clean : Bool)
      → HasRungs m
      → rung ≤ max_mcs
      → get_or m.knee rung none ≡ none
      → get_or (observe m rung value clean).knee rung none ≡ (if clean then none else some value)
  observe_cold m rung value clean len h cold = rw (knee-observe m rung value clean h) (
      rw
        (get_or-set_self m.knee rung (learn m.cfg (get_or m.knee rung none) value clean) none
          (omega (arith, len.knee_len)))
        (unfold learn in rw cold))

-- What the two update formulas rely on: signs of a difference and of a product, and that adding a
-- number of a sign moves no further than its sign says.
pub record HasSigns {F : Type 0} (fl : Float F) : Type 0 where
  pub sub_below : (v k : F) → fl.lt v k ≡ true → fl.le (fl.sub v k) (fl.of_int (pos 0)) ≡ true
  pub sub_above : (v k : F) → fl.lt k v ≡ true → fl.le (fl.of_int (pos 0)) (fl.sub v k) ≡ true
  pub mul_below :
      (a x : F)
      → fl.le (fl.of_int (pos 0)) a ≡ true
      → fl.le x (fl.of_int (pos 0)) ≡ true
      → fl.le (fl.mul a x) (fl.of_int (pos 0)) ≡ true
  pub mul_above :
      (a x : F)
      → fl.le (fl.of_int (pos 0)) a ≡ true
      → fl.le (fl.of_int (pos 0)) x ≡ true
      → fl.le (fl.of_int (pos 0)) (fl.mul a x) ≡ true
  pub add_below : (k x : F) → fl.le x (fl.of_int (pos 0)) ≡ true → fl.le (fl.add k x) k ≡ true
  pub add_above : (k x : F) → fl.le (fl.of_int (pos 0)) x ≡ true → fl.le k (fl.add k x) ≡ true

-- The new knee is at most the old one after a clean sample, and at least it after a failure.
abbrev pub Moved : {F : Type 0} → Float F → Bool → F → Option F → Type 0
Moved fl clean k none = ⊥
Moved fl true k (some k') = fl.le k' k ≡ true
Moved fl false k (some k') = fl.le k k' ≡ true

module _ {F : Type 0} ⦃fl : Float F⦄ (ord : IsOrdered fl) (signs : HasSigns fl) (m : KneeModel F)
    (relax : fl.le (fl.of_int (pos 0)) m.cfg.alpha_relax ≡ true)
    (tighten : fl.le (fl.of_int (pos 0)) m.cfg.alpha_tighten ≡ true) where
  learn-Moved : (k value : F) (clean : Bool) → Moved fl clean k (learn m.cfg (some k) value clean)
  unfolding learn
  learn-Moved k value true = elim (Bool-cases (fl.lt value k)) [
    | inl e ↦ rw e (
        signs.add_below k _ (signs.mul_below m.cfg.alpha_relax _ relax (signs.sub_below value k e)))
    | inr e ↦ rw e (ord.le_refl k)
  ]
  learn-Moved k value false = elim (Bool-cases (fl.lt k value)) [
    | inl e ↦ rw e (
        signs.add_above k _
          (signs.mul_above m.cfg.alpha_tighten _ tighten (signs.sub_above value k e)))
    | inr e ↦ rw e (ord.le_refl k)
  ]

  -- A known knee stays known, and moves only one way: a clean sample never raises it and a failure
  -- never lowers it. (Floats in order with the usual signs, learning rates that are not negative, and
  -- a rung of the model's.)
  pub observe_direction :
      (rung : ℕ) (k value : F) (clean : Bool)
      → HasRungs m
      → rung ≤ max_mcs
      → get_or m.knee rung none ≡ some k
      → Moved fl clean k (get_or (observe m rung value clean).knee rung none)
  observe_direction rung k value clean len h known = rw (knee-observe m rung value clean h) (
      rw
        (get_or-set_self m.knee rung (learn m.cfg (get_or m.knee rung none) value clean) none
          (omega (arith, len.knee_len)))
        (rw known (learn-Moved k value clean)))

module _ {F : Type 0} where
  -- What is saved is what is loaded: into any model the document of a well-formed one brings its
  -- knees and counts, and keeps the configuration.
  pub load_dict-to_dict :
      ⦃fl : Float F⦄ (target m : KneeModel F)
      → HasRungs m
      → load_dict target (to_dict m) ≡ (record target { knee = m.knee; count = m.count }, true)
  unfolding load_dict to_dict
  load_dict-to_dict target m h = ground arith

  -- Whatever the document holds, loading it leaves one entry for each rung in both lists.
  pub load_dict-HasRungs :
      ⦃fl : Float F⦄ (m : KneeModel F) (doc : Doc F) → HasRungs m → HasRungs (load_dict m doc).0
  unfolding load_dict
  load_dict-HasRungs m doc h = ground arith
