-- ===== src/Domain/Windows.antt =====
-- backend/app/domain/windows.py: the stats of every window that a list of trades covers, and their merge
-- with a pool's own. Reading the payloads of the services is left out: the trades come as they were
-- read. Times are microseconds.
pub mod Covered
use Prim.Native.Nat.{◌-◌ as minus, ◌+◌ as add, ◌*◌ as times}
use meme_agent.Base.{
  ℕ, String, ◌==◌, Bool, not, ◌||◌, Option, none, some, List, [], ◌∷◌, ◌++◌, Dict, get, map, keep,
  elem, length, leb, ltb, if◌then◌else◌,
}
use meme_agent.Float.{FloatOps, ◌+◌, ◌-◌, ◌*◌, num, over, round, sum, truthy}
use meme_agent.Domain.Market.{WindowStats}
use meme_agent.Strategies.Scales.{first_of}

-- A trade, its side as seen from the token.
pub record Trade (F : Type 0) : Type 0 where
  pub at : ℕ
  pub is_buy : Bool
  pub usd : F
  pub trader : String
  pub price : Option F

abbrev pub microseconds : ℕ → ℕ
microseconds secs = times secs 1_000_000

abbrev pub day : ℕ
day = 86_400_000_000

-- `WINDOWS` with `WINDOW_SECONDS`
abbrev pub windows : Dict ℕ
windows =
    ("5m", 300)
    ∷ ("15m", 900)
    ∷ ("1h", 3600)
    ∷ ("2h", 7200)
    ∷ ("4h", 14_400)
    ∷ ("6h", 21_600)
    ∷ ("12h", 43_200)
    ∷ ("24h", 86_400)
    ∷ []

module _ {F : Type 0} where
  abbrev pub earliest : ℕ → List (Trade F) → ℕ
  earliest best [] = best
  earliest best (e ∷ es) = earliest (if ltb e.at best then e.at else best) es

  -- A page below the cap holds every trade of the day; a full one reaches back to its oldest trade.
  unfoldable pub coverage_start : ℕ → ℕ → ℕ → List (Trade F) → ℕ
  coverage_start now rows page_limit [] = minus now day
  coverage_start now rows page_limit (e ∷ es) =
      if leb page_limit rows then earliest e.at es else minus now day

  -- `events.sort(key=...)`, which is stable.
  unfoldable pub insert_trade : Trade F → List (Trade F) → List (Trade F)
  insert_trade e [] = e ∷ []
  insert_trade e (t ∷ ts) =
      let rest = insert_trade e ts in if leb e.at t.at then e ∷ t ∷ ts else t ∷ rest

  unfoldable pub sort_trades : List (Trade F) → List (Trade F)
  unfolding insert_trade
  sort_trades [] = []
  sort_trades (e ∷ es) = insert_trade e (sort_trades es)

  -- The traders with a name, each once.
  unfoldable pub traders_from : List String → List (Trade F) → List String
  traders_from seen [] = seen
  traders_from seen (e ∷ es) =
      traders_from (if e.trader == "" || elem e.trader seen then seen else e.trader ∷ seen) es

  abbrev pub traders : List (Trade F) → ℕ
  traders es = length (traders_from [] es)

  abbrev pub bought : List (Trade F) → List (Trade F)
  bought es = keep (λ e. e.is_buy) es

  abbrev pub sold : List (Trade F) → List (Trade F)
  sold es = keep (λ e. not e.is_buy) es

  abbrev pub inside : ℕ → List (Trade F) → List (Trade F)
  inside start es = keep (λ e. leb start e.at) es

module _ {F : Type 0} ⦃n : FloatOps F⦄ where
  -- A price that is known and not 0.
  abbrev pub real_price : Option F → Option F
  real_price none = none
  real_price (some x) = if truthy x then some x else none

  unfoldable pub first_price : List (Trade F) → Option F
  first_price [] = none
  first_price (e ∷ es) = first_of (real_price e.price) (first_price es)

  unfoldable pub last_price : List (Trade F) → Option F
  last_price [] = none
  last_price (e ∷ es) = first_of (last_price es) (real_price e.price)

  -- The price before the window, or the first one in it.
  abbrev pub reference_price : ℕ → List (Trade F) → Option F
  reference_price start es =
      first_of (last_price (keep (λ e. ltb e.at start) es)) (first_price (inside start es))

  abbrev pub change_of : Option F → Option F → List (Trade F) → Option F
  change_of (some ref) (some latest) (e ∷ es) = some (round ((over latest ref - num 1) * num 100) 4)
  change_of _ _ _ = none

  abbrev pub volume : List (Trade F) → F
  volume es = sum (map (λ e. e.usd) es)

  unfoldable pub stats_of : ℕ → List (Trade F) → WindowStats F
  unfolding first_price last_price
  stats_of start events =
      let within = inside start events in
      let buys = bought within in
      let sells = sold within in
      record {
        buyers = some (traders buys);
        sellers = some (traders sells);
        buys = some (length buys);
        sells = some (length sells);
        volume_usd = some (round (volume buys + volume sells) 4);
        buy_volume_usd = some (round (volume buys) 4);
        sell_volume_usd = some (round (volume sells) 4);
        price_change_pct = change_of (reference_price start events) (last_price events) within;
      }

  -- A window that the trades do not reach back to, up to a second, is left out.
  unfoldable pub windows_over : ℕ → ℕ → List (Trade F) → Dict ℕ → Dict (WindowStats F)
  unfolding stats_of
  windows_over now coverage events [] = []
  windows_over now coverage events ((w, secs) ∷ ws) =
      let start = minus now (microseconds secs) in
      let rest = windows_over now coverage events ws in
      if ltb (add start (microseconds 1)) coverage then rest else (w, stats_of start events) ∷ rest

  -- `rows` is the number of rows of the page, of which `events` are those that could be read.
  unfoldable pub windows_from_trades : ℕ → ℕ → ℕ → List (Trade F) → Dict (WindowStats F)
  unfolding windows_over sort_trades coverage_start
  windows_from_trades now rows page_limit events =
      if leb rows 0
      then []
      else windows_over now (coverage_start now rows page_limit events) (sort_trades events) windows

  -- The pool's figures go first; the split of the volume is that of the trades.
  abbrev pub merge_stats : WindowStats F → WindowStats F → WindowStats F
  merge_stats p t = record {
    buyers = first_of p.buyers t.buyers;
    sellers = first_of p.sellers t.sellers;
    buys = first_of p.buys t.buys;
    sells = first_of p.sells t.sells;
    volume_usd = first_of p.volume_usd t.volume_usd;
    buy_volume_usd = t.buy_volume_usd;
    sell_volume_usd = t.sell_volume_usd;
    price_change_pct = first_of p.price_change_pct t.price_change_pct;
  }

  abbrev pub merged_window :
      String → Option (WindowStats F) → Option (WindowStats F) → Dict (WindowStats F)
  merged_window w none none = []
  merged_window w none (some t) = (w, t) ∷ []
  merged_window w (some p) none = (w, p) ∷ []
  merged_window w (some p) (some t) = (w, merge_stats p t) ∷ []

  unfoldable pub merge_over :
      Dict (WindowStats F) → Dict (WindowStats F) → Dict ℕ → Dict (WindowStats F)
  merge_over pool trades [] = []
  merge_over pool trades ((w, secs) ∷ ws) =
      merged_window w (get w pool) (get w trades) ++ merge_over pool trades ws

  unfoldable pub merge_window_sources :
      Dict (WindowStats F) → Dict (WindowStats F) → Dict (WindowStats F)
  unfolding merge_over
  merge_window_sources pool trades = merge_over pool trades windows
