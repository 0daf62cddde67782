-- ===== src/Domain/Market.antt =====
-- backend/app/domain/market.py: the market snapshot that strategies, risk rules and exits read, with
-- its derived readings. Counts are naturals; fields that are only displayed are left out.
pub mod Flow
use Prim.Native.Nat.{◌+◌ as ◌⊹◌}
use Prim.Native.String.{◌++◌}
use meme_agent.Base.{
  ℕ, String, ◌==◌, Bool, true, false, not, ◌&&◌, ◌||◌, Option, none, some, List, [], ◌∷◌, Dict, get,
  lower, ltb, leb, nat_eq, if◌then◌else◌,
}
use meme_agent.Core.Errors.{Result, ok, ◌>>=◌}
use meme_agent.Float.{FloatOps, ◌-◌, ◌*◌, ◌÷◌, gt, le, num, truthy, max, min, seconds}

pub record ContractInfo (F : Type 0) : Type 0 where
  pub verified : Option Bool
  pub mint_authority_active : Option Bool
  pub pausable : Option Bool
  pub blacklist_capability : Option Bool
  pub transfer_restricted : Option Bool
  pub buy_tax_pct : Option F
  pub sell_tax_pct : Option F
  pub is_proxy : Option Bool
  pub sell_simulation_ok : Option Bool

pub record WindowStats (F : Type 0) : Type 0 where
  pub buyers : Option ℕ
  pub sellers : Option ℕ
  pub buys : Option ℕ
  pub sells : Option ℕ
  pub volume_usd : Option F
  pub buy_volume_usd : Option F
  pub sell_volume_usd : Option F
  pub price_change_pct : Option F

pub record MarketState (F : Type 0) : Type 0 where
  pub chain : String
  pub token_address : String
  pub timestamp : ℕ
  pub launchpad : Option String
  pub creator_address : Option String
  pub token_created_at : Option ℕ
  pub price : Option F
  pub market_cap : Option F
  pub liquidity : Option F
  pub liquidity_change_5m_pct : Option F
  pub volume_5m : Option F
  pub volume_15m : Option F
  pub buy_volume_5m : Option F
  pub sell_volume_5m : Option F
  pub buys_5m : Option ℕ
  pub sells_5m : Option ℕ
  pub unique_buyers_1m : Option ℕ
  pub unique_buyers_5m : Option ℕ
  pub unique_buyers_15m : Option ℕ
  pub unique_buyers_prev_5m : Option ℕ
  pub unique_sellers_5m : Option ℕ
  pub unique_sellers_15m : Option ℕ
  pub windows : Dict (WindowStats F)
  pub liquidity_growth : Dict F
  pub market_cap_growth : Dict F
  pub holder_count : Option ℕ
  pub holder_growth : Dict F
  pub holder_growth_pct : Option F
  pub top_5pct_holders_pct : Option F
  pub top_20pct_holders_pct : Option F
  pub top_30pct_holders_pct : Option F
  pub top10_holder_pct : Option F
  pub creator_known : Bool
  pub creator_balance_pct : Option F
  pub creator_sold_pct : Option F
  pub price_change_5m : Option F
  pub price_change_15m : Option F
  pub recent_high : Option F
  pub volatility_pct : Option F
  pub contract : ContractInfo F
  pub expected_price_impact_pct : Option F
  pub mev_risk_score : Option F
  pub buy_sell_basis : Option String
  pub is_demo : Bool

-- `x is not None`
abbrev pub present {ℓ} : {A : Type ℓ} → Option A → Bool
present none = false
present (some a) = true

-- `x or 0` of an optional count.
abbrev pub or_zero : Option ℕ → ℕ
or_zero none = 0
or_zero (some k) = k

-- The truth of an optional text and of an optional count.
abbrev pub truthy_text : Option String → Bool
truthy_text none = false
truthy_text (some s) = not (s == "")

abbrev pub truthy_count : Option ℕ → Bool
truthy_count o = ltb 0 (or_zero o)

abbrev or_else : Option ℕ → Option ℕ → Option ℕ
or_else none d = d
or_else (some k) d = some k

abbrev pub two_way_windows : List String
two_way_windows = "24h" ∷ "12h" ∷ "6h" ∷ "4h" ∷ "2h" ∷ "1h" ∷ "15m" ∷ "5m" ∷ []

-- `b is not None or sl is not None`, and whether both are positive.
abbrev known_sides : Option ℕ × Option ℕ → Bool
known_sides (b, s) = present b || present s

abbrev both_sides : Option ℕ × Option ℕ → Bool
both_sides (b, s) = truthy_count b && truthy_count s

abbrev one_sided : ℕ → Option ℕ → Option ℕ → Bool
one_sided min_buys (some b) (some s) = leb min_buys b && nat_eq s 0
one_sided min_buys _ _ = false

module _ {F : Type 0} where
  unfoldable pub key : MarketState F → String
  key m = m.chain ++ ":" ++ lower m.token_address

  -- The counts that a window of stats offers for a side, before any fallback.
  abbrev window_count : (WindowStats F → Option ℕ) → Option (WindowStats F) → Option ℕ
  window_count side none = none
  window_count side (some w) = side w

  unfoldable pub buyers_in : MarketState F → String → Option ℕ
  buyers_in m name = or_else (window_count (λ w. w.buyers) (get name m.windows)) (
      if name == "5m"
      then m.unique_buyers_5m
      else if name == "15m"
      then m.unique_buyers_15m
      else none)

  unfoldable pub sellers_in : MarketState F → String → Option ℕ
  sellers_in m name = or_else (window_count (λ w. w.sellers) (get name m.windows)) (
      if name == "5m"
      then m.unique_sellers_5m
      else if name == "15m"
      then m.unique_sellers_15m
      else none)

  -- `trades_in`: buys + sells of a window, with the 5m counters as the fallback of "5m".
  unfoldable pub trades_in : MarketState F → String → Option ℕ
  trades_in m name =
      let b = window_count (λ (w : WindowStats F). w.buys) (get name m.windows) in
      let s = window_count (λ (w : WindowStats F). w.sells) (get name m.windows) in
      let unknown = not (present b) && not (present s) in
      let b' = if unknown && name == "5m" then m.buys_5m else b in
      let s' = if unknown && name == "5m" then m.sells_5m else s in
      if not (present b') && not (present s') then none else some (or_zero b' ⊹ or_zero s')

  -- What one window shows of the two sides: unique traders, or else transaction counts.
  unfoldable pub sides_in : MarketState F → String → Option ℕ × Option ℕ
  unfolding buyers_in sellers_in
  sides_in m name =
      let b = buyers_in m name in
      let s = sellers_in m name in
      let w = get name m.windows in
      if not (present b) && not (present s)
      then (
        window_count (λ (v : WindowStats F). v.buys) w,
        window_count (λ (v : WindowStats F). v.sells) w,
      )
      else (b, s)

  unfoldable pub two_way_loop : MarketState F → List String → Bool → Option Bool
  two_way_loop m [] saw_any = if saw_any then some false else none
  two_way_loop m (name ∷ names) saw_any =
      let seen = sides_in m name in
      let rest = two_way_loop m names (saw_any || known_sides seen) in
      if known_sides seen && both_sides seen then some true else rest

  unfoldable pub has_two_way_trading : MarketState F → Option Bool
  unfolding two_way_loop
  has_two_way_trading m = two_way_loop m two_way_windows false

  unfoldable pub one_sided_trading : MarketState F → ℕ → Bool
  one_sided_trading m min_buys = elim (get "24h" m.windows) [
    | none ↦ false
    | some w ↦ one_sided min_buys w.buys w.sells
  ]

module _ {F : Type 0} ⦃n : FloatOps F⦄ where
  unfoldable pub age_seconds : MarketState F → ℕ → Option F
  age_seconds m now = elim m.token_created_at [ none ↦ none | some t ↦ some (seconds now t) ]

  unfoldable pub data_age_seconds : MarketState F → ℕ → F
  data_age_seconds m now = seconds now m.timestamp

  abbrev truthy_float : Option F → Bool
  truthy_float none = false
  truthy_float (some x) = truthy x

  abbrev drawdown : Option F → Option F → Result (Option F)
  drawdown (some price) (some high) =
      if not (truthy price) || not (truthy high) || le high (num 0)
      then ok none
      else do fall ← (high - price) ÷ high; ok (some (max (num 0) (fall * num 100)))
  drawdown _ _ = ok none

  unfoldable pub drawdown_from_high_pct : MarketState F → Result (Option F)
  drawdown_from_high_pct m = drawdown m.price m.recent_high

  unfoldable pub buy_sell_count_ratio : MarketState F → Option F
  buy_sell_count_ratio m =
      let b = or_zero m.buys_5m in
      let s = or_zero m.sells_5m in
      if not (present m.buys_5m) && not (present m.sells_5m)
      then none
      else if nat_eq b 0 && nat_eq s 0
      then none
      else if nat_eq s 0
      then some (num 10)
      else some (min (n.ratio b s) (num 10))

  abbrev pub volume_ratio : MarketState F → Option F → Option F → Result (Option F)
  volume_ratio m (some b) (some s) =
      if le s (num 0)
      then ok (if gt b (num 0) then some (num 10) else buy_sell_count_ratio m)
      else do r ← b ÷ s; ok (some (min r (num 10)))
  volume_ratio m _ _ = ok (buy_sell_count_ratio m)

  unfoldable pub buy_sell_volume_ratio : MarketState F → Result (Option F)
  unfolding buy_sell_count_ratio
  buy_sell_volume_ratio m = volume_ratio m m.buy_volume_5m m.sell_volume_5m
