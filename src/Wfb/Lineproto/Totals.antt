-- ===== src/Wfb/Lineproto/Totals.antt =====
-- What `RxLineParser` makes of lines that wfb_rx prints, and the sums that it keeps.
use fpvd.Prelude.{
  ℕ, suc, ◌≤◌, ◌≡◌, refl, ap, ◌∙◌, ◌⊎◌, inl, inr, false, ◌==◌, some, List, [], ◌∷◌, ◌++◌, map,
  arith, ltb, length, take, All,
}
use fpvd.Prelude.Int.{ℤ, pos}
use fpvd.Prelude.Text.{Text, codes, join_by, decimal, split, strip, ints_of}
use fpvd.Prelude.Text.Laws.{
  Lacks, IsSolid, IsDigit, split-join_by, int_of-decimal, decimal-IsDigit, All-append, IsFilled,
  IsFilled-append, decimal-IsFilled, strip-append,
}
use fpvd.Wfb.Lineproto.{tab, colon, zip_pairs, cumulate, ints_in, rx_pkt_keys}
use fpvd.Wfb.Lineproto.Rx.{RxLineParser, window, on_pkt, dispatch, feed_line}

length-map : (f : ℕ → ℤ) (xs : List ℕ) → length (map f xs) ≡ length xs
length-map f [] = refl
length-map f (x ∷ xs) = ap suc (length-map f xs)

-- The counters of a PKT line in print.
abbrev pub print_counters : List ℕ → Text
print_counters counters = join_by colon (map decimal counters)

ints_of-decimal : (counters : List ℕ) → ints_of (map decimal counters) ≡ some (map pos counters)
unfolding ints_of
ints_of-decimal [] = refl
ints_of-decimal (n ∷ counters) = rw (ints_of, int_of-decimal n, ints_of-decimal counters) refl

digits-Lack : (sep : ℕ) (s : Text) → (sep ≤ 47) ⊎ (58 ≤ sep) → All IsDigit s → Lacks sep s
digits-Lack sep [] h a = tt
digits-Lack sep (c ∷ s) h a = (ground (arith, a.0, h), digits-Lack sep s h a.1)

decimals-Lack : (counters : List ℕ) → All (Lacks colon) (map decimal counters)
decimals-Lack [] = tt
decimals-Lack (n ∷ counters) =
    (digits-Lack colon (decimal n) (inr (omega arith)) (decimal-IsDigit n), decimals-Lack counters)

ints_in-print :
    (n : ℕ) (counters : List ℕ)
    → ints_in (print_counters (n ∷ counters)) ≡ some (map pos (n ∷ counters))
ints_in-print n counters =
    ap ints_of
      (split-join_by colon (decimal n) (map decimal counters) (decimals-Lack (n ∷ counters)))
    ∙ ints_of-decimal (n ∷ counters)

digits-IsSolid : (s : Text) → All IsDigit s → All IsSolid s
digits-IsSolid [] a = tt
digits-IsSolid (c ∷ s) a = (ground (arith, a.0), digits-IsSolid s a.1)

print-IsSolid : (counters : List ℕ) → All IsSolid (print_counters counters)
unfolding join_by
print-IsSolid [] = tt
print-IsSolid (n ∷ []) = digits-IsSolid (decimal n) (decimal-IsDigit n)
print-IsSolid (n ∷ m ∷ counters) =
    All-append IsSolid (decimal n) (colon ∷ print_counters (m ∷ counters))
      (digits-IsSolid (decimal n) (decimal-IsDigit n)) (refl, print-IsSolid (m ∷ counters))

print-Lack : (counters : List ℕ) → Lacks tab (print_counters counters)
unfolding join_by
print-Lack [] = tt
print-Lack (n ∷ []) = digits-Lack tab (decimal n) (inl (omega arith)) (decimal-IsDigit n)
print-Lack (n ∷ m ∷ counters) =
    All-append (λ c. (c == tab) ≡ false) (decimal n) (colon ∷ print_counters (m ∷ counters))
      (digits-Lack tab (decimal n) (inl (omega arith)) (decimal-IsDigit n))
      (refl, print-Lack (m ∷ counters))

abbrev pub pkt : Text
pkt = codes "PKT"

-- The line that wfb_rx prints for a window.
abbrev pub pkt_line : ℕ → List ℕ → Text
pkt_line ts counters = decimal ts ++ ((tab ∷ pkt ++ tab ∷ []) ++ print_counters counters)

print-IsFilled : (n : ℕ) (counters : List ℕ) → IsFilled (print_counters (n ∷ counters))
unfolding join_by
print-IsFilled n [] = decimal-IsFilled n
print-IsFilled n (m ∷ counters) =
    IsFilled-append (decimal n) (colon ∷ print_counters (m ∷ counters)) (decimal-IsFilled n)
      (refl, print-IsSolid (m ∷ counters))

split_line :
    (ts n : ℕ) (counters : List ℕ)
    → split tab (strip (pkt_line ts (n ∷ counters)))
      ≡ decimal ts ∷ pkt ∷ print_counters (n ∷ counters) ∷ []
unfolding join_by
split_line ts n counters =
    let text = print_counters (n ∷ counters) in
    ap (split tab) (
      strip-append (decimal ts) (tab ∷ pkt ++ tab ∷ []) text (decimal-IsFilled ts)
        (print-IsFilled n counters))
    ∙ split-join_by tab (decimal ts) (pkt ∷ text ∷ []) (
      digits-Lack tab (decimal ts) (inl (omega arith)) (decimal-IsDigit ts),
      ((refl, (refl, (refl, tt))), (print-Lack (n ∷ counters), tt)),
    )

enough_counters :
    (n : ℕ) (counters : List ℕ)
    → 10 ≤ length counters
    → ltb (length (map pos (n ∷ counters))) rx_pkt_keys ≡ false
enough_counters n counters h = ground (arith, h, length-map pos counters)

-- A window that wfb_rx prints, with eleven counters or more after any time stamp, is reported with
-- its first eleven counters and their sums since the start, with the antennas seen since the last
-- window and the session; then the antennas start anew. Everything else stays.
pub feed_line-pkt_line :
    (p : RxLineParser) (ts n : ℕ) (counters : List ℕ)
    → 10 ≤ length counters
    → let cs = take 11 (map pos (n ∷ counters)) in
      feed_line p (pkt_line ts (n ∷ counters)) ≡ record p {
        ant = [];
        cum = some (cumulate cs p.cum);
        calls = p.calls ++ window (zip_pairs cs (cumulate cs p.cum)) p.ant p.session ∷ [];
      }
unfolding feed_line dispatch on_pkt
feed_line-pkt_line p ts n counters h =
    rw (split_line ts n counters, ints_in-print n counters, enough_counters n counters h) refl
