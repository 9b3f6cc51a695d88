-- ===== src/Wfb/TxSelector/Best.antt =====
-- The best card of a ranking is one of the cards near the maximum, and none of them beats it.
use mathlib.Core.List.{Mem}
use fpvd.Prelude.{
  mem_all, ℕ, ◌≡◌, refl, ◌==◌, true, false, Option, none, some, List, [], ◌∷◌, arith, Bool-cases,
  if_ind, All, inl, inr,
}
use fpvd.Prelude.Int.{ℤ}
use fpvd.Prelude.Dict.{put}
use fpvd.Wfb.TxSelector.{
  Ranking, Group, has, rank_group, rank_groups, pair_lt, best_from, best, candidates,
}

pair_lt_trans : (a b c : ℤ × ℕ) → pair_lt a b ≡ false → pair_lt b c ≡ false → pair_lt a c ≡ false
pair_lt_trans a b c h k = ground arith

pair_lt_asym : (a b : ℤ × ℕ) → pair_lt a b ≡ true → pair_lt b a ≡ false
pair_lt_asym a b h = ground arith

pair_lt_irrefl : (a : ℤ × ℕ) → pair_lt a a ≡ false
pair_lt_irrefl a = ground arith

-- Nothing in the list is greater.
abbrev pub IsBest : ℤ × ℕ → List (ℤ × ℕ) → Type 0
IsBest b xs = All (λ c. pair_lt b c ≡ false) xs

best_from-IsBest : (m : ℤ × ℕ) (xs : List (ℤ × ℕ)) → IsBest (best_from m xs) (m ∷ xs)
unfolding best_from
best_from-IsBest m [] = (pair_lt_irrefl m, tt)
best_from-IsBest m (x ∷ xs) =
    if_ind (λ n. IsBest (best_from n xs) (m ∷ x ∷ xs)) (pair_lt m x) x m
      (λ e.
        let r = best_from-IsBest x xs in
        (pair_lt_trans (best_from x xs) x m r.0 (pair_lt_asym m x e), (r.0, r.1)))
      (λ e. let r = best_from-IsBest m xs in (r.0, (pair_lt_trans (best_from m xs) m x r.0 e, r.1)))

best_from-All :
    (P : ℤ × ℕ → Type 0) (m : ℤ × ℕ) (xs : List (ℤ × ℕ)) → P m → All P xs → P (best_from m xs)
unfolding best_from
best_from-All P m [] h a = h
best_from-All P m (x ∷ xs) h a = elim (Bool-cases (pair_lt m x)) [
  | inl e ↦ rw e (best_from-All P x xs a.0 a.1)
  | inr e ↦ rw e (best_from-All P m xs h a.1)
]

-- A card that may be chosen: near the maximum and no receive-only one.
abbrev pub IsEligible : List ℕ → List ℕ → ℤ × ℕ → Type 0
IsEligible rx_only near c = (has near c.1 ≡ true) × (has rx_only c.1 ≡ false)

abbrev pub MayTransmit : List ℕ → Ranking → Type 0
MayTransmit rx_only ranking = All (λ e. has rx_only e.0 ≡ false) ranking

pub candidates-All :
    (rx_only near : List ℕ) (ranking : Ranking)
    → MayTransmit rx_only ranking
    → All (IsEligible rx_only near) (candidates near ranking)
unfolding candidates
candidates-All rx_only near [] a = tt
candidates-All rx_only near ((w, v) ∷ ranking) a = elim (Bool-cases (has near w)) [
  | inl e ↦ rw e ((e, a.0), candidates-All rx_only near ranking a.1)
  | inr e ↦ rw e (candidates-All rx_only near ranking a.1)
]

put-MayTransmit :
    (rx_only : List ℕ) (w : ℕ) (v : ℤ × ℕ) (ranking : Ranking)
    → has rx_only w ≡ false
    → MayTransmit rx_only ranking
    → MayTransmit rx_only (put w v ranking)
unfolding put
put-MayTransmit rx_only w v [] h a = (h, tt)
put-MayTransmit rx_only w v ((j, u) ∷ ranking) h a =
    if_ind (MayTransmit rx_only) (j == w) ((w, v) ∷ ranking) ((j, u) ∷ put w v ranking)
      (λ _. (h, a.1)) (λ _. (a.0, put-MayTransmit rx_only w v ranking h a.1))

pub rank_groups-MayTransmit :
    (rx_only : List ℕ) (groups : List Group) (acc : Ranking × ℕ)
    → MayTransmit rx_only acc.0
    → MayTransmit rx_only (rank_groups rx_only groups acc).0
unfolding rank_groups
rank_groups-MayTransmit rx_only [] acc a = a
rank_groups-MayTransmit rx_only (g ∷ groups) acc a =
    rank_groups-MayTransmit rx_only groups (rank_group rx_only g acc)
      (elim (Bool-cases (has rx_only g.0.wlan)) [
        | inl e ↦ rw e a
        | inr e ↦ rw e (put-MayTransmit rx_only g.0.wlan _ acc.0 e a)
      ])

-- What `best` returns, when it returns a pair.
abbrev pub BestOf : List ℕ → List ℕ → List (ℤ × ℕ) → Option (ℤ × ℕ) → Type 0
BestOf rx_only near cands none = cands ≡ []
BestOf rx_only near cands (some b) = IsEligible rx_only near b × Mem b cands × IsBest b cands

pub best-BestOf :
    (rx_only near : List ℕ) (cands : List (ℤ × ℕ))
    → All (IsEligible rx_only near) cands
    → BestOf rx_only near cands (best cands)
best-BestOf rx_only near [] a = refl
best-BestOf rx_only near (c ∷ cands) a =
    let m = mem_all (c ∷ cands) in
    (
      best_from-All (IsEligible rx_only near) c cands a.0 a.1,
      best_from-All (λ b. Mem b (c ∷ cands)) c cands m.0 m.1,
      best_from-IsBest c cands,
    )
