-- ===== src/MarketData/Merge.antt =====
-- `_is_complete` and `MarketDataRegistry._merge` of backend/app/market_data/registry.py: filling the
-- gaps of a market snapshot from a later provider's.
use meme_agent.Base.{
  String, ◌==◌, Bool, false, ◌&&◌, ◌||◌, Option, none, some, List, [], ◌∷◌, Dict, get, put, any,
  contains, if◌then◌else◌,
}
use meme_agent.Core.Errors.{Result, ok, ◌>>=◌}
use meme_agent.Float.{FloatOps}
use meme_agent.Domain.Market.{
  MarketState, ContractInfo, WindowStats, present, buy_sell_volume_ratio,
}
use meme_agent.Strategies.Scales.{first_of}

-- A snapshot with the names of the sources that it came from.
pub record Answer (F : Type 0) : Type 0 where
  pub state : MarketState F
  pub data_sources : List String

abbrev pub is_usd : Option String → Bool
is_usd none = false
is_usd (some basis) = basis == "usd"

-- A field of the split of the volume: a real split goes before an estimate.
abbrev pub split_of : {A : Type 0} → Bool → Option A → Option A → Option A
split_of real p e = if real then first_of e p else first_of p e

module _ {F : Type 0} where
  abbrev pub merge_contract : ContractInfo F → ContractInfo F → ContractInfo F
  merge_contract c e = record {
    verified = first_of c.verified e.verified;
    mint_authority_active = first_of c.mint_authority_active e.mint_authority_active;
    pausable = first_of c.pausable e.pausable;
    blacklist_capability = first_of c.blacklist_capability e.blacklist_capability;
    transfer_restricted = first_of c.transfer_restricted e.transfer_restricted;
    buy_tax_pct = first_of c.buy_tax_pct e.buy_tax_pct;
    sell_tax_pct = first_of c.sell_tax_pct e.sell_tax_pct;
    is_proxy = first_of c.is_proxy e.is_proxy;
    sell_simulation_ok = first_of c.sell_simulation_ok e.sell_simulation_ok;
  }

  abbrev pub merge_window : WindowStats F → WindowStats F → WindowStats F
  merge_window w e = record {
    buyers = first_of w.buyers e.buyers;
    sellers = first_of w.sellers e.sellers;
    buys = first_of w.buys e.buys;
    sells = first_of w.sells e.sells;
    volume_usd = first_of w.volume_usd e.volume_usd;
    buy_volume_usd = first_of w.buy_volume_usd e.buy_volume_usd;
    sell_volume_usd = first_of w.sell_volume_usd e.sell_volume_usd;
    price_change_pct = first_of w.price_change_pct e.price_change_pct;
  }

  -- `merged_w.setdefault(wk, {})`: a window that is missing is taken as it is.
  abbrev pub filled_window : Option (WindowStats F) → WindowStats F → WindowStats F
  filled_window none e = e
  filled_window (some w) e = merge_window w e

  unfoldable pub merge_windows : Dict (WindowStats F) → Dict (WindowStats F) → Dict (WindowStats F)
  merge_windows d [] = d
  merge_windows d ((name, e) ∷ es) = merge_windows (put name (filled_window (get name d) e) d) es

  -- `{**value, **data[key]}`: the entries of the later provider, with those of the earlier put over them.
  unfoldable pub merge_growth : Dict F → Dict F → Dict F
  merge_growth e [] = e
  merge_growth e ((w, x) ∷ d) = merge_growth (put w x e) d

  abbrev pub real_split : Answer F → Bool
  real_split a =
      is_usd a.state.buy_sell_basis
      || (any (λ s. contains s "geckoterminal") a.data_sources && present a.state.buy_volume_5m)

  -- A field that is not optional is never missing, so the earlier provider's is kept.
  unfoldable pub merge : MarketState F → Answer F → MarketState F
  unfolding merge_windows merge_growth
  merge p a =
      let e = a.state in
      let real = real_split a in
      record {
        chain = p.chain;
        token_address = p.token_address;
        timestamp = p.timestamp;
        launchpad = first_of p.launchpad e.launchpad;
        creator_address = first_of p.creator_address e.creator_address;
        token_created_at = first_of p.token_created_at e.token_created_at;
        price = first_of p.price e.price;
        market_cap = first_of p.market_cap e.market_cap;
        liquidity = first_of p.liquidity e.liquidity;
        liquidity_change_5m_pct = first_of p.liquidity_change_5m_pct e.liquidity_change_5m_pct;
        volume_5m = first_of p.volume_5m e.volume_5m;
        volume_15m = first_of p.volume_15m e.volume_15m;
        buy_volume_5m = split_of real p.buy_volume_5m e.buy_volume_5m;
        sell_volume_5m = split_of real p.sell_volume_5m e.sell_volume_5m;
        buys_5m = first_of p.buys_5m e.buys_5m;
        sells_5m = first_of p.sells_5m e.sells_5m;
        unique_buyers_1m = first_of p.unique_buyers_1m e.unique_buyers_1m;
        unique_buyers_5m = first_of p.unique_buyers_5m e.unique_buyers_5m;
        unique_buyers_15m = first_of p.unique_buyers_15m e.unique_buyers_15m;
        unique_buyers_prev_5m = first_of p.unique_buyers_prev_5m e.unique_buyers_prev_5m;
        unique_sellers_5m = first_of p.unique_sellers_5m e.unique_sellers_5m;
        unique_sellers_15m = first_of p.unique_sellers_15m e.unique_sellers_15m;
        windows = merge_windows p.windows e.windows;
        liquidity_growth = merge_growth e.liquidity_growth p.liquidity_growth;
        market_cap_growth = merge_growth e.market_cap_growth p.market_cap_growth;
        holder_count = first_of p.holder_count e.holder_count;
        holder_growth = merge_growth e.holder_growth p.holder_growth;
        holder_growth_pct = first_of p.holder_growth_pct e.holder_growth_pct;
        top_5pct_holders_pct = first_of p.top_5pct_holders_pct e.top_5pct_holders_pct;
        top_20pct_holders_pct = first_of p.top_20pct_holders_pct e.top_20pct_holders_pct;
        top_30pct_holders_pct = first_of p.top_30pct_holders_pct e.top_30pct_holders_pct;
        top10_holder_pct = first_of p.top10_holder_pct e.top10_holder_pct;
        creator_known = p.creator_known;
        creator_balance_pct = first_of p.creator_balance_pct e.creator_balance_pct;
        creator_sold_pct = first_of p.creator_sold_pct e.creator_sold_pct;
        price_change_5m = first_of p.price_change_5m e.price_change_5m;
        price_change_15m = first_of p.price_change_15m e.price_change_15m;
        recent_high = first_of p.recent_high e.recent_high;
        volatility_pct = first_of p.volatility_pct e.volatility_pct;
        contract = merge_contract p.contract e.contract;
        expected_price_impact_pct =
            first_of p.expected_price_impact_pct e.expected_price_impact_pct;
        mev_risk_score = first_of p.mev_risk_score e.mev_risk_score;
        buy_sell_basis = split_of real p.buy_sell_basis e.buy_sell_basis;
        is_demo = p.is_demo;
      }

module _ {F : Type 0} ⦃n : FloatOps F⦄ where
  abbrev pub core_fields : MarketState F → Bool
  core_fields m =
      present m.price
      && present m.liquidity
      && present m.volume_5m
      && present m.price_change_5m
      && present m.unique_buyers_5m

  -- `and` does not ask for the ratio where a core field is missing.
  unfoldable pub is_complete : MarketState F → Result Bool
  is_complete m =
      if core_fields m then (do r ← buy_sell_volume_ratio m; ok (present r)) else ok false
