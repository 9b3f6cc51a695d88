-- ===== src/Wfb/Lineproto/Sums.antt =====
-- The sums that `RxLineParser` reports, whatever lines it is fed.
use mathlib.Core.Path.{subst}
use fpvd.Prelude.{
  ℕ, zero, suc, ◌≡◌, refl, sym, ap, ◌∙◌, false, ◌==◌, Option, none, some, List, [], ◌∷◌, ◌++◌, map,
  arith, ltb, if_ind, length, take,
}
use fpvd.Prelude.Int.{ℤ, ◌+ℤ◌}
use fpvd.Prelude.Text.{Text, codes, text_eq, split, strip, int_of}
use fpvd.Wfb.Lineproto.{tab, zip_add, zip_pairs, cumulate, ints_in, rx_pkt_keys}
use fpvd.Wfb.Lineproto.Rx.{
  RxLineParser, Ants, Session, Call, window, session_changed, new, store_ant, with_evm, on_rx_ant,
  count_window, on_pkt, take_session, session_of, is_known, on_session, dispatch, or_same,
  feed_line,
}

-- What a line may do to the sums and to the calls.
data Grows (p q : RxLineParser) : Type 0 where
  quiet : q.cum ≡ p.cum → q.calls ≡ p.calls → Grows p q
  told : (s : Session) → q.cum ≡ p.cum → q.calls ≡ p.calls ++ session_changed s ∷ [] → Grows p q
  counted :
      (cs : List ℤ) (ants : Ants) (s : Option Session)
      → length cs ≡ 11
      → q.cum ≡ some (cumulate cs p.cum)
      → q.calls ≡ p.calls ++ window (zip_pairs cs (cumulate cs p.cum)) ants s ∷ []
      → Grows p q

abbrev MayGrow : RxLineParser → Option RxLineParser → Type 0
MayGrow p none = Unit
MayGrow p (some q) = Grows p q

store_ant-MayGrow :
    (p : RxLineParser) (k v : Option (List ℤ)) (a : Option ℤ) → MayGrow p (store_ant p k v a)
store_ant-MayGrow p none v a = tt
store_ant-MayGrow p (some []) v a = tt
store_ant-MayGrow p (some (x ∷ [])) v a = tt
store_ant-MayGrow p (some (x ∷ y ∷ [])) v a = tt
store_ant-MayGrow p (some (x ∷ y ∷ z ∷ [])) none a = tt
store_ant-MayGrow p (some (x ∷ y ∷ z ∷ [])) (some vals) none = tt
store_ant-MayGrow p (some (x ∷ y ∷ z ∷ [])) (some vals) (some a) =
    if_ind (MayGrow p) (length (with_evm vals) == 10) _ _ (λ _. quiet refl refl) (λ _. tt)
store_ant-MayGrow p (some (x ∷ y ∷ z ∷ w ∷ k)) v a = tt

on_rx_ant-MayGrow : (p : RxLineParser) (cols : List Text) → MayGrow p (on_rx_ant p cols)
unfolding on_rx_ant
on_rx_ant-MayGrow p [] = tt
on_rx_ant-MayGrow p (a ∷ []) = tt
on_rx_ant-MayGrow p (a ∷ b ∷ []) = tt
on_rx_ant-MayGrow p (a ∷ b ∷ c ∷ []) = tt
on_rx_ant-MayGrow p (a ∷ b ∷ c ∷ d ∷ []) = tt
on_rx_ant-MayGrow p (a ∷ b ∷ c ∷ d ∷ e ∷ []) =
    store_ant-MayGrow p (ints_in c) (ints_in e) (int_of 16 d)
on_rx_ant-MayGrow p (a ∷ b ∷ c ∷ d ∷ e ∷ f ∷ cols) = tt

length-take : (n : ℕ) (xs : List ℤ) → ltb (length xs) n ≡ false → length (take n xs) ≡ n
length-take zero xs h = refl
length-take (suc n) [] h = absurd (ground (arith, h))
length-take (suc n) (x ∷ xs) h = ap suc (length-take n xs (ground (arith, h)))

count_window-MayGrow : (p : RxLineParser) (cs : Option (List ℤ)) → MayGrow p (count_window p cs)
count_window-MayGrow p none = tt
count_window-MayGrow p (some cs) =
    if_ind (MayGrow p) (ltb (length cs) rx_pkt_keys) _ _ (λ _. tt)
      (λ e. counted (take rx_pkt_keys cs) p.ant p.session (length-take rx_pkt_keys cs e) refl refl)

on_pkt-MayGrow : (p : RxLineParser) (cols : List Text) → MayGrow p (on_pkt p cols)
unfolding on_pkt
on_pkt-MayGrow p [] = tt
on_pkt-MayGrow p (a ∷ []) = tt
on_pkt-MayGrow p (a ∷ b ∷ []) = tt
on_pkt-MayGrow p (a ∷ b ∷ c ∷ []) = count_window-MayGrow p (ints_in c)
on_pkt-MayGrow p (a ∷ b ∷ c ∷ d ∷ cols) = tt

take_session-MayGrow :
    (p : RxLineParser) (parts : Option (List ℤ)) → MayGrow p (take_session p parts)
take_session-MayGrow p none = tt
take_session-MayGrow p (some []) = tt
take_session-MayGrow p (some (a ∷ [])) = tt
take_session-MayGrow p (some (a ∷ b ∷ [])) = tt
take_session-MayGrow p (some (a ∷ b ∷ c ∷ [])) = tt
take_session-MayGrow p (some (a ∷ b ∷ c ∷ d ∷ rest)) =
    if_ind (Grows p) (is_known (session_of a b c d rest) p.session) _ _ (λ _. quiet refl refl)
      (λ _. told (session_of a b c d rest) refl refl)

on_session-MayGrow : (p : RxLineParser) (cols : List Text) → MayGrow p (on_session p cols)
unfolding on_session
on_session-MayGrow p [] = tt
on_session-MayGrow p (a ∷ []) = tt
on_session-MayGrow p (a ∷ b ∷ []) = tt
on_session-MayGrow p (a ∷ b ∷ c ∷ []) = take_session-MayGrow p (ints_in c)
on_session-MayGrow p (a ∷ b ∷ c ∷ d ∷ cols) = tt

dispatch-MayGrow : (p : RxLineParser) (cols : List Text) → MayGrow p (dispatch p cols)
unfolding dispatch
dispatch-MayGrow p [] = tt
dispatch-MayGrow p (a ∷ []) = tt
dispatch-MayGrow p (ts ∷ cmd ∷ cols) =
    let l = ts ∷ cmd ∷ cols in
    if_ind (MayGrow p) (text_eq cmd (codes "RX_ANT")) _ _ (λ _. on_rx_ant-MayGrow p l)
      (λ _.
        if_ind (MayGrow p) (text_eq cmd (codes "PKT")) _ _ (λ _. on_pkt-MayGrow p l)
          (λ _.
            if_ind (MayGrow p) (text_eq cmd (codes "SESSION")) _ _ (λ _. on_session-MayGrow p l)
              (λ _. tt)))

or_same-Grows : (p : RxLineParser) (o : Option RxLineParser) → MayGrow p o → Grows p (or_same p o)
or_same-Grows p none g = quiet refl refl
or_same-Grows p (some q) g = g

feed_line-Grows : (p : RxLineParser) (line : Text) → Grows p (feed_line p line)
unfolding feed_line
feed_line-Grows p line =
    or_same-Grows p (dispatch p (split tab (strip line)))
      (dispatch-MayGrow p (split tab (strip line)))

unfoldable pub feed_lines : RxLineParser → List Text → RxLineParser
feed_lines p [] = p
feed_lines p (line ∷ lines) = feed_lines (feed_line p line) lines

abbrev counts : List (ℤ × ℤ) → List ℤ
counts packets = map (λ c. c.0) packets

abbrev totals : List (ℤ × ℤ) → List ℤ
totals packets = map (λ c. c.1) packets

-- Each sum is the sum before plus the counter; without sums before it is the counter.
abbrev pub Plus : List (ℤ × ℤ) → List ℤ → Type 0
Plus [] [] = Unit
Plus [] (b ∷ before) = ⊥
Plus (p ∷ packets) [] = ⊥
Plus (p ∷ packets) (b ∷ before) = (p.1 ≡ p.0 +ℤ b) × Plus packets before

abbrev pub AddsTo : List (ℤ × ℤ) → Option (List ℤ) → Type 0
AddsTo packets none = totals packets ≡ counts packets
AddsTo packets (some before) = Plus packets before

-- From the sums before some calls to those after them: each window adds its eleven counters.
abbrev pub Adds : Option (List ℤ) → List Call → Option (List ℤ) → Type 0
Adds before [] after = before ≡ after
Adds before (session_changed s ∷ calls) after = Adds before calls after
Adds before (window packets ants s ∷ calls) after =
    (length packets ≡ 11) × AddsTo packets before × Adds (some (totals packets)) calls after

Adds-append :
    (a b c : Option (List ℤ)) (xs ys : List Call) → Adds a xs b → Adds b ys c → Adds a (xs ++ ys) c
Adds-append a b c [] ys h k = subst (λ o. Adds o ys c) (sym h) k
Adds-append a b c (session_changed s ∷ xs) ys h k = Adds-append a b c xs ys h k
Adds-append a b c (window packets ants s ∷ xs) ys h k =
    (h.0, h.1, Adds-append (some (totals packets)) b c xs ys h.2 k)

length-zip_add : (xs ys : List ℤ) → length xs ≡ length ys → length (zip_add xs ys) ≡ length ys
unfolding zip_add
length-zip_add [] [] e = refl
length-zip_add [] (y ∷ ys) e = absurd (omega (arith, e))
length-zip_add (x ∷ xs) [] e = absurd (omega (arith, e))
length-zip_add (x ∷ xs) (y ∷ ys) e = ap suc (length-zip_add xs ys (omega (arith, e)))

-- The two columns of a report.
abbrev Columns : List ℤ → List ℤ → List (ℤ × ℤ) → Type 0
Columns xs ys packets = (counts packets ≡ xs) × (totals packets ≡ ys) × (length packets ≡ length xs)

zip_pairs-Columns : (xs ys : List ℤ) → length xs ≡ length ys → Columns xs ys (zip_pairs xs ys)
unfolding zip_pairs
zip_pairs-Columns [] [] e = (refl, refl, refl)
zip_pairs-Columns [] (y ∷ ys) e = absurd (omega (arith, e))
zip_pairs-Columns (x ∷ xs) [] e = absurd (omega (arith, e))
zip_pairs-Columns (x ∷ xs) (y ∷ ys) e =
    let r = zip_pairs-Columns xs ys (omega (arith, e)) in
    (ap (λ l. x ∷ l) r.0, ap (λ l. y ∷ l) r.1, ap suc r.2)

abbrev IsSized : Option (List ℤ) → Type 0
IsSized none = Unit
IsSized (some cum) = length cum ≡ 11

length-cumulate :
    (cs : List ℤ) (cum : Option (List ℤ))
    → length cs ≡ 11
    → IsSized cum
    → length (cumulate cs cum) ≡ 11
length-cumulate cs none h s = h
length-cumulate cs (some cum) h s = length-zip_add cs cum (h ∙ sym s) ∙ s

zip_add-Plus :
    (cs before : List ℤ)
    → length cs ≡ length before
    → Plus (zip_pairs cs (zip_add cs before)) before
unfolding zip_add zip_pairs
zip_add-Plus [] [] e = tt
zip_add-Plus [] (b ∷ before) e = absurd (omega (arith, e))
zip_add-Plus (c ∷ cs) [] e = absurd (omega (arith, e))
zip_add-Plus (c ∷ cs) (b ∷ before) e = (refl, zip_add-Plus cs before (omega (arith, e)))

cumulate-AddsTo :
    (cs : List ℤ) (cum : Option (List ℤ))
    → length cs ≡ 11
    → IsSized cum
    → AddsTo (zip_pairs cs (cumulate cs cum)) cum
cumulate-AddsTo cs none h k = let r = zip_pairs-Columns cs cs refl in r.1 ∙ sym r.0
cumulate-AddsTo cs (some before) h k = zip_add-Plus cs before (h ∙ sym k)

window-Adds :
    (cs : List ℤ) (cum : Option (List ℤ)) (ants : Ants) (s : Option Session)
    → length cs ≡ 11
    → IsSized cum
    → Adds cum (window (zip_pairs cs (cumulate cs cum)) ants s ∷ []) (some (cumulate cs cum))
window-Adds cs cum ants s h k =
    let r = zip_pairs-Columns cs (cumulate cs cum) (h ∙ sym (length-cumulate cs cum h k)) in
    (r.2 ∙ h, cumulate-AddsTo cs cum h k, ap some r.1)

-- The sums are those of the calls so far, and have eleven entries.
abbrev IsSummed : Option (List ℤ) → List Call → Type 0
IsSummed cum calls = IsSized cum × Adds none calls cum

Grows-IsSummed : (p q : RxLineParser) → Grows p q → IsSummed p.cum p.calls → IsSummed q.cum q.calls
Grows-IsSummed p q (quiet e f) h = rw (e, f) h
Grows-IsSummed p q (told s e f) h =
    rw (e, f) (h.0, Adds-append none p.cum p.cum p.calls (session_changed s ∷ []) h.1 refl)
Grows-IsSummed p q (counted cs ants s l e f) h =
    rw (e, f)
      (
        length-cumulate cs p.cum l h.0,
        Adds-append none p.cum (some (cumulate cs p.cum)) p.calls _ h.1
            (window-Adds cs p.cum ants s l h.0),
      )

feed_lines-IsSummed :
    (p : RxLineParser) (lines : List Text)
    → IsSummed p.cum p.calls
    → IsSummed (feed_lines p lines).cum (feed_lines p lines).calls
unfolding feed_lines
feed_lines-IsSummed p [] h = h
feed_lines-IsSummed p (line ∷ lines) h =
    feed_lines-IsSummed (feed_line p line) lines
      (Grows-IsSummed p (feed_line p line) (feed_line-Grows p line) h)

-- Whatever lines a new parser is fed, garbage included, each window that it reports has eleven
-- counters, each of its sums is that of the last window plus the counter (in the first window the
-- counter itself), and the sums that the parser keeps are those of the last window reported.
pub feed_lines-Adds :
    (lines : List Text) → Adds none (feed_lines new lines).calls (feed_lines new lines).cum
feed_lines-Adds lines = (feed_lines-IsSummed new lines (tt, refl)).1
