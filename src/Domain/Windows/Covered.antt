-- ===== src/Domain/Windows/Covered.antt =====
-- The windows that a page of trades covers.
use Prim.Native.Nat.{◌+◌, ◌-◌}
use meme_agent.Base.{
  ℕ, String, Bool, true, false, ◌≤◌, ◌≡◌, refl, ◌∙◌, Option, none, some, List, [], ◌∷◌, Dict, get,
  keep, All, length, leb, ltb, Bool-cases, ◌⊎◌, inl, inr, arith,
}
use meme_agent.Float.{FloatOps}
use meme_agent.Domain.Market.{WindowStats}
use meme_agent.Domain.Windows.{
  Trade, microseconds, windows, earliest, coverage_start, insert_trade, sort_trades, bought, sold,
  inside, stats_of, windows_over, windows_from_trades,
}

abbrev known : Option ℕ → ℕ
known none = 0
known (some k) = k

module _ {F : Type 0} where
  -- Some trade is not later than the time.
  abbrev pub Reaches : ℕ → List (Trade F) → Type 0
  Reaches time [] = ⊥
  Reaches time (e ∷ es) = (e.at ≤ time) ⊎ Reaches time es

  -- The buys and the sells of a window.
  abbrev counted : WindowStats F → ℕ
  counted st = known st.buys + known st.sells

  -- A reported window: the trades reach back to its start, up to a second, and every trade in it is
  -- counted once.
  pub record IsCovered (now : ℕ) (events : List (Trade F)) (entry : String × WindowStats F)
      : Type 0 where
    pub secs : ℕ
    pub length_known : get entry.0 windows ≡ some secs
    pub reached : Reaches (now - microseconds secs + 1_000_000) events
    pub all_counted : counted entry.1 ≡ length (inside (now - microseconds secs) events)

  earliest-Reaches :
      (time best : ℕ) (es : List (Trade F))
      → earliest best es ≤ time
      → (best ≤ time) ⊎ Reaches time es
  earliest-Reaches time best [] h = inl h
  earliest-Reaches time best (e ∷ es) h = elim (Bool-cases (ltb e.at best)) [
    | inl earlier ↦ inr (earliest-Reaches time e.at es (rw earlier at h))
    | inr later ↦ elim (earliest-Reaches time best es (rw later at h)) [
      | inl b ↦ inl b
      | inr r ↦ inr (inr r)
    ]
  ]

  length-keep_insert :
      (f : Trade F → Bool) (e : Trade F) (es : List (Trade F))
      → length (keep f (insert_trade e es)) ≡ length (keep f (e ∷ es))
  unfolding insert_trade
  length-keep_insert f e [] = refl
  length-keep_insert f e (t ∷ ts) = ground (arith, length-keep_insert f e ts)

  length-keep_sort :
      (f : Trade F → Bool) (es : List (Trade F))
      → length (keep f (sort_trades es)) ≡ length (keep f es)
  unfolding sort_trades
  length-keep_sort f [] = refl
  length-keep_sort f (e ∷ es) =
      length-keep_insert f e (sort_trades es) ∙ ground (arith, length-keep_sort f es)

  length-sides : (es : List (Trade F)) → length (bought es) + length (sold es) ≡ length es
  length-sides [] = refl
  length-sides (e ∷ es) = ground (arith, length-sides es)

windows-known : All (λ w. get w.0 windows ≡ some w.1) windows
unfolding get
windows-known = (refl, (refl, (refl, (refl, (refl, (refl, (refl, (refl, tt))))))))

module _ {F : Type 0} ⦃n : FloatOps F⦄ where
  counted-stats_of :
      (start : ℕ) (es : List (Trade F))
      → counted (stats_of start (sort_trades es)) ≡ length (inside start es)
  unfolding stats_of
  counted-stats_of start es =
      length-sides (inside start (sort_trades es)) ∙ length-keep_sort (λ e. leb start e.at) es

  windows_over-IsCovered :
      (now : ℕ) (e : Trade F) (es : List (Trade F)) (ws : Dict ℕ)
      → All (λ w. get w.0 windows ≡ some w.1) ws
      → All (IsCovered now (e ∷ es)) (windows_over now (earliest e.at es) (sort_trades (e ∷ es)) ws)
  unfolding windows_over
  windows_over-IsCovered now e es [] _ = tt
  windows_over-IsCovered now e es ((w, secs) ∷ ws) (h, hs) =
      elim (Bool-cases (ltb (now - microseconds secs + microseconds 1) (earliest e.at es))) [
        | inl short ↦ rw short (windows_over-IsCovered now e es ws hs)
        | inr long ↦ rw long (
          record {
            secs = secs;
            length_known = h;
            reached = earliest-Reaches _ e.at es (ground arith);
            all_counted = counted-stats_of (now - microseconds secs) (e ∷ es);
          },
          windows_over-IsCovered now e es ws hs,
        )
      ]

  -- From a full page with a trade, every window reported is one of the eight; some trade of the page is
  -- not later than a second after its start, and its buys and sells are together the trades of the page
  -- that lie in it.
  pub windows_from_trades-AllCovered :
      (now rows page_limit : ℕ) (e : Trade F) (es : List (Trade F))
      → 1 ≤ rows
      → page_limit ≤ rows
      → All (IsCovered now (e ∷ es)) (windows_from_trades now rows page_limit (e ∷ es))
  unfolding windows_from_trades coverage_start
  windows_from_trades-AllCovered now rows page_limit e es h full =
      let some_rows : leb rows 0 ≡ false = ground arith in
      let is_full : leb page_limit rows ≡ true = ground arith in
      rw some_rows (rw is_full (windows_over-IsCovered now e es windows windows-known))
