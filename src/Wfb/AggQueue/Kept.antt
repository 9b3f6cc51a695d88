-- ===== src/Wfb/AggQueue/Kept.antt =====
-- The invariant of an aggregating queue, and what a flush keeps.
use fpvd.Prelude.{
  ℕ, ◌≤◌, ◌≡◌, ◌∙◌, ap, inl, inr, sym, refl, true, false, some, List, [], ◌∷◌, ◌++◌, arith, ltb,
  if◌then◌else◌, length, Bool-cases, if_ind, All,
}
use mathlib.Core.List.{append_assoc, append-nil}
use fpvd.Prelude.Float.{Float}
use fpvd.Wfb.AggQueue.{
  Bytes, AggQueue, join, empty, is_set, cancel, send_queue, flush, Event, put_event, flush_event,
  fire_event,
}

-- The messages of a run that are not too big.
abbrev pub accepted : ℕ → List Event → List Bytes
accepted limit [] = []
accepted limit (put_event m ∷ es) =
    let rest = accepted limit es in if ltb limit (length m) then rest else m ∷ rest
accepted limit (_ ∷ es) = accepted limit es

pub join-append : (xs ys : List Bytes) → join (xs ++ ys) ≡ join xs ++ join ys
join-append [] ys = refl
join-append (x ∷ xs) ys = rw (join-append xs ys) (sym (append_assoc x (join xs) (join ys)))

-- An aggregating queue with its limit: the size is right, and no batch is over the limit.
pub record IsValid {F : Type 0} ⦃fl : Float F⦄ (limit : ℕ) (q : AggQueue F) : Type 0 where
  pub sized : q.max_size ≡ some limit
  pub timed : is_set q.timeout_s ≡ true
  pub size : q.queue_size ≡ length (join q.queue)
  pub fits : q.queue_size ≤ limit
  pub batches : All (λ (b : Bytes). length b ≤ limit) q.sent

pub All-append :
    (P : Bytes → Type 0) (xs : List Bytes) (y : Bytes) → All P xs → P y → All P (xs ++ y ∷ [])
All-append P [] y a p = (p, tt)
All-append P (x ∷ xs) y a p = (a.0, All-append P xs y a.1 p)

pub empty_size : (ms : List Bytes) → empty ms ≡ true → length (join ms) ≡ 0
empty_size [] e = refl
empty_size (m ∷ ms) e = absurd (ground arith)

-- What a message adds: nothing if it is over the limit.
abbrev pub added : ℕ → Bytes → Bytes
added limit m = if ltb limit (length m) then [] else m

pub accepted_one :
    (limit : ℕ) (m : Bytes) → added limit m ≡ join (accepted limit (put_event m ∷ []))
accepted_one limit m = elim (Bool-cases (ltb limit (length m))) [
  | inl e ↦ rw e
  | inr e ↦ rw e (sym (append-nil m))
]

pub accepted_cons :
    (limit : ℕ) (e : Event) (es : List Event)
    → join (accepted limit (e ∷ [])) ++ join (accepted limit es) ≡ join (accepted limit (e ∷ es))
accepted_cons limit (put_event m) es = elim (Bool-cases (ltb limit (length m))) [
  | inl e ↦ rw e
  | inr e ↦ rw e (ap (λ b. b ++ join (accepted limit es)) (append-nil m))
]
accepted_cons limit flush_event es = refl
accepted_cons limit fire_event es = refl

module _ {F : Type 0} ⦃fl : Float F⦄ where
  -- All bytes that the queue was given and has kept, in order.
  abbrev pub contents : AggQueue F → Bytes
  contents q = join q.sent ++ join q.queue

  pub contents-send_queue : (q : AggQueue F) → contents (send_queue q) ≡ contents q
  contents-send_queue q = rw (join-append q.sent (join q.queue ∷ [])) (
      append-nil (join q.sent ++ (join q.queue ++ []))
      ∙ ap (λ b. join q.sent ++ b) (append-nil (join q.queue)))

  pub cancel-contents : (q : AggQueue F) → contents (cancel q) ≡ contents q
  cancel-contents q = ground arith

  pub cancel-IsValid : (limit : ℕ) (q : AggQueue F) → IsValid limit q → IsValid limit (cancel q)
  cancel-IsValid limit q v =
      if_ind (IsValid limit) q.timer (record q { timer = false; scheduled = false }) q
        (λ _. record {
          sized = v.sized;
          timed = v.timed;
          size = v.size;
          fits = v.fits;
          batches = v.batches;
        })
        (λ _. v)

  pub send_queue-IsValid :
      (limit : ℕ) (q : AggQueue F) → IsValid limit q → IsValid limit (send_queue q)
  send_queue-IsValid limit q v = record {
    sized = v.sized;
    timed = v.timed;
    size = refl;
    fits = omega arith;
    batches =
        All-append (λ b. length b ≤ limit) q.sent (join q.queue) v.batches
          (omega (arith, v.size, v.fits));
  }

  -- Valid, and with the contents of the old queue followed by `added`.
  pub record Kept (limit : ℕ) (q r : AggQueue F) (added : Bytes) : Type 0 where
    pub valid : IsValid limit r
    pub same : contents r ≡ contents q ++ added

  pub sent_queue-Kept :
      (limit : ℕ) (q : AggQueue F) → IsValid limit q → Kept limit q (send_queue (cancel q)) []
  sent_queue-Kept limit q v = record {
    valid = send_queue-IsValid limit (cancel q) (cancel-IsValid limit q v);
    same = contents-send_queue (cancel q) ∙ (cancel-contents q ∙ sym (append-nil (contents q)));
  }

  pub flush-Kept : (limit : ℕ) (q : AggQueue F) → IsValid limit q → Kept limit q (flush q) []
  unfolding flush
  flush-Kept limit q v =
      if_ind (λ r. Kept limit q r []) (ltb 0 q.queue_size) (send_queue (cancel q)) q
        (λ _. sent_queue-Kept limit q v)
        (λ _. record { valid = v; same = sym (append-nil (contents q)) })
