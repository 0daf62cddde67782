-- ===== src/MarketData/Fills.antt =====
-- What it is for a snapshot to be filled from a later one.
use meme_agent.Base.{
  String, Bool, ◌≡◌, Option, none, some, [], ◌∷◌, Dict, get, IsFilled, if◌then◌else◌,
}
use meme_agent.Domain.Market.{MarketState, WindowStats, ContractInfo}
use meme_agent.MarketData.Merge.{Answer, real_split}

module _ {A : Type 0} where
  -- No key comes twice.
  abbrev pub DistinctKeys : Dict A → Type 0
  DistinctKeys [] = Unit
  DistinctKeys ((k, v) ∷ d) = (get k d ≡ none) × DistinctKeys d

  -- A real split of the later snapshot goes before what is known.
  abbrev pub FillsSplit : Bool → Option A → Option A → Option A → Type 0
  FillsSplit real o e m = if real then IsFilled e o m else IsFilled o e m

module _ {F : Type 0} where
  -- A window of both, field by field.
  pub record FillsWindow (w e m : WindowStats F) : Type 0 where
    pub buyers : IsFilled w.buyers e.buyers m.buyers
    pub sellers : IsFilled w.sellers e.sellers m.sellers
    pub buys : IsFilled w.buys e.buys m.buys
    pub sells : IsFilled w.sells e.sells m.sells
    pub volume_usd : IsFilled w.volume_usd e.volume_usd m.volume_usd
    pub buy_volume_usd : IsFilled w.buy_volume_usd e.buy_volume_usd m.buy_volume_usd
    pub sell_volume_usd : IsFilled w.sell_volume_usd e.sell_volume_usd m.sell_volume_usd
    pub price_change_pct : IsFilled w.price_change_pct e.price_change_pct m.price_change_pct

  -- A window of one provider is taken as it is.
  abbrev pub FillsWindows :
      Option (WindowStats F) → Option (WindowStats F) → Option (WindowStats F) → Type 0
  FillsWindows o none merged = merged ≡ o
  FillsWindows none (some e) merged = merged ≡ some e
  FillsWindows (some w) (some e) merged =
      (m : WindowStats F) × ((merged ≡ some m) × FillsWindow w e m)

  pub record FillsContract (c e m : ContractInfo F) : Type 0 where
    pub verified : IsFilled c.verified e.verified m.verified
    pub mint_authority_active :
        IsFilled c.mint_authority_active e.mint_authority_active m.mint_authority_active
    pub pausable : IsFilled c.pausable e.pausable m.pausable
    pub blacklist_capability :
        IsFilled c.blacklist_capability e.blacklist_capability m.blacklist_capability
    pub transfer_restricted :
        IsFilled c.transfer_restricted e.transfer_restricted m.transfer_restricted
    pub buy_tax_pct : IsFilled c.buy_tax_pct e.buy_tax_pct m.buy_tax_pct
    pub sell_tax_pct : IsFilled c.sell_tax_pct e.sell_tax_pct m.sell_tax_pct
    pub is_proxy : IsFilled c.is_proxy e.is_proxy m.is_proxy
    pub sell_simulation_ok : IsFilled c.sell_simulation_ok e.sell_simulation_ok m.sell_simulation_ok

  -- At every window the growth that is known stays.
  abbrev pub FillsHistory : Dict F → Dict F → Dict F → Type 0
  FillsHistory d e m = (w : String) → IsFilled (get w d) (get w e) (get w m)

  -- A merge of two snapshots, field by field, also inside the contract, the windows and the histories.
  pub record Fills (p : MarketState F) (a : Answer F) (m : MarketState F) : Type 0 where
    pub launchpad : IsFilled p.launchpad a.state.launchpad m.launchpad
    pub creator_address : IsFilled p.creator_address a.state.creator_address m.creator_address
    pub token_created_at : IsFilled p.token_created_at a.state.token_created_at m.token_created_at
    pub price : IsFilled p.price a.state.price m.price
    pub market_cap : IsFilled p.market_cap a.state.market_cap m.market_cap
    pub liquidity : IsFilled p.liquidity a.state.liquidity m.liquidity
    pub liquidity_change_5m_pct :
        IsFilled p.liquidity_change_5m_pct a.state.liquidity_change_5m_pct m.liquidity_change_5m_pct
    pub volume_5m : IsFilled p.volume_5m a.state.volume_5m m.volume_5m
    pub volume_15m : IsFilled p.volume_15m a.state.volume_15m m.volume_15m
    pub buys_5m : IsFilled p.buys_5m a.state.buys_5m m.buys_5m
    pub sells_5m : IsFilled p.sells_5m a.state.sells_5m m.sells_5m
    pub unique_buyers_1m : IsFilled p.unique_buyers_1m a.state.unique_buyers_1m m.unique_buyers_1m
    pub unique_buyers_5m : IsFilled p.unique_buyers_5m a.state.unique_buyers_5m m.unique_buyers_5m
    pub unique_buyers_15m :
        IsFilled p.unique_buyers_15m a.state.unique_buyers_15m m.unique_buyers_15m
    pub unique_buyers_prev_5m :
        IsFilled p.unique_buyers_prev_5m a.state.unique_buyers_prev_5m m.unique_buyers_prev_5m
    pub unique_sellers_5m :
        IsFilled p.unique_sellers_5m a.state.unique_sellers_5m m.unique_sellers_5m
    pub unique_sellers_15m :
        IsFilled p.unique_sellers_15m a.state.unique_sellers_15m m.unique_sellers_15m
    pub holder_count : IsFilled p.holder_count a.state.holder_count m.holder_count
    pub holder_growth_pct :
        IsFilled p.holder_growth_pct a.state.holder_growth_pct m.holder_growth_pct
    pub top_5pct_holders_pct :
        IsFilled p.top_5pct_holders_pct a.state.top_5pct_holders_pct m.top_5pct_holders_pct
    pub top_20pct_holders_pct :
        IsFilled p.top_20pct_holders_pct a.state.top_20pct_holders_pct m.top_20pct_holders_pct
    pub top_30pct_holders_pct :
        IsFilled p.top_30pct_holders_pct a.state.top_30pct_holders_pct m.top_30pct_holders_pct
    pub top10_holder_pct : IsFilled p.top10_holder_pct a.state.top10_holder_pct m.top10_holder_pct
    pub creator_balance_pct :
        IsFilled p.creator_balance_pct a.state.creator_balance_pct m.creator_balance_pct
    pub creator_sold_pct : IsFilled p.creator_sold_pct a.state.creator_sold_pct m.creator_sold_pct
    pub price_change_5m : IsFilled p.price_change_5m a.state.price_change_5m m.price_change_5m
    pub price_change_15m : IsFilled p.price_change_15m a.state.price_change_15m m.price_change_15m
    pub recent_high : IsFilled p.recent_high a.state.recent_high m.recent_high
    pub volatility_pct : IsFilled p.volatility_pct a.state.volatility_pct m.volatility_pct
    pub expected_price_impact_pct :
        IsFilled p.expected_price_impact_pct a.state.expected_price_impact_pct
          m.expected_price_impact_pct
    pub mev_risk_score : IsFilled p.mev_risk_score a.state.mev_risk_score m.mev_risk_score
    pub contract : FillsContract p.contract a.state.contract m.contract
    pub windows :
        DistinctKeys a.state.windows
        → (w : String) → FillsWindows (get w p.windows) (get w a.state.windows) (get w m.windows)
    pub liquidity_growth :
        DistinctKeys p.liquidity_growth
        → FillsHistory p.liquidity_growth a.state.liquidity_growth m.liquidity_growth
    pub market_cap_growth :
        DistinctKeys p.market_cap_growth
        → FillsHistory p.market_cap_growth a.state.market_cap_growth m.market_cap_growth
    pub holder_growth :
        DistinctKeys p.holder_growth
        → FillsHistory p.holder_growth a.state.holder_growth m.holder_growth
    pub buy_volume_5m :
        FillsSplit (real_split a) p.buy_volume_5m a.state.buy_volume_5m m.buy_volume_5m
    pub sell_volume_5m :
        FillsSplit (real_split a) p.sell_volume_5m a.state.sell_volume_5m m.sell_volume_5m
    pub buy_sell_basis :
        FillsSplit (real_split a) p.buy_sell_basis a.state.buy_sell_basis m.buy_sell_basis
    pub chain : m.chain ≡ p.chain
    pub token_address : m.token_address ≡ p.token_address
    pub timestamp : m.timestamp ≡ p.timestamp
    pub creator_known : m.creator_known ≡ p.creator_known
    pub is_demo : m.is_demo ≡ p.is_demo
