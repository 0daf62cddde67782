-- ===== src/MarketData/Filling.antt =====
-- A merge keeps what the earlier snapshot knows and takes the rest from the later one.
use meme_agent.Base.{
  IsFilled, none-IsFilled, some-IsFilled, String, ◌==◌, eq_iff, Bool, true, false, ◌≡◌, refl, ap,
  subst, sym, ◌∙◌, Option, none, some, [], ◌∷◌, Dict, get, put, get-put, Bool-cases, inl, inr,
  arith,
}
use meme_agent.Domain.Market.{MarketState, WindowStats, ContractInfo}
use meme_agent.Strategies.Scales.{first_of}
use meme_agent.MarketData.Fills.{
  DistinctKeys, FillsWindows, FillsContract, FillsHistory, FillsSplit, Fills,
}
use meme_agent.MarketData.Merge.{
  Answer, merge_contract, filled_window, merge_windows, merge_growth, real_split, split_of, merge,
}

module _ {A : Type 0} where
  first_of-IsFilled : (o p : Option A) → IsFilled o p (first_of o p)
  first_of-IsFilled none p = none-IsFilled p
  first_of-IsFilled (some a) p = some-IsFilled a p

  get-distinct : (k w : String) (d : Dict A) → get k d ≡ none → (k == w) ≡ true → get w d ≡ none
  get-distinct k w d h e = ground (arith, eq_iff k w)

  split-Fills : (real : Bool) (o p : Option A) → FillsSplit real o p (split_of real o p)
  split-Fills true o p = first_of-IsFilled p o
  split-Fills false o p = first_of-IsFilled o p

module _ {F : Type 0} where
  same_get : (k w : String) (d : Dict (WindowStats F)) → (k == w) ≡ true → get k d ≡ get w d
  same_get k w d h = ap (λ j. get j d) ((eq_iff k w).0 h)

  get-merge_growth :
      (w : String) (e d : Dict F)
      → DistinctKeys d
      → get w (merge_growth e d) ≡ first_of (get w d) (get w e)
  unfolding merge_growth get
  get-merge_growth w e [] h = refl
  get-merge_growth w e ((k, x) ∷ d) (fresh, h) =
      get-merge_growth w (put k x e) d h ∙ elim (Bool-cases (k == w)) [
        | inl same ↦ rw (get-put k w x e, same, get-distinct k w d fresh same) refl
        | inr other ↦ rw (get-put k w x e, other) refl
      ]

  abbrev window_of : Option (WindowStats F) → Option (WindowStats F) → Option (WindowStats F)
  window_of o none = o
  window_of o (some e) = some (filled_window o e)

  get-merge_windows :
      (w : String) (d es : Dict (WindowStats F))
      → DistinctKeys es
      → get w (merge_windows d es) ≡ window_of (get w d) (get w es)
  unfolding merge_windows get
  get-merge_windows w d [] h = refl
  get-merge_windows w d ((k, e) ∷ es) (fresh, h) =
      get-merge_windows w (put k (filled_window (get k d) e) d) es h ∙ elim (Bool-cases (k == w)) [
        | inl same ↦
            rw
              (
                get-put k w (filled_window (get k d) e) d,
                same,
                get-distinct k w es fresh same,
                same_get k w d same,
              )
              refl
        | inr other ↦ rw (get-put k w (filled_window (get k d) e) d, other) refl
      ]

  window_of-Fills : (o e : Option (WindowStats F)) → FillsWindows o e (window_of o e)
  window_of-Fills o none = refl
  window_of-Fills none (some e) = refl
  window_of-Fills (some w) (some e) = (
    filled_window (some w) e,
    (
      refl,
      record {
        buyers = first_of-IsFilled _ _;
        sellers = first_of-IsFilled _ _;
        buys = first_of-IsFilled _ _;
        sells = first_of-IsFilled _ _;
        volume_usd = first_of-IsFilled _ _;
        buy_volume_usd = first_of-IsFilled _ _;
        sell_volume_usd = first_of-IsFilled _ _;
        price_change_pct = first_of-IsFilled _ _;
      },
    ),
  )

  merge_contract-Fills : (c e : ContractInfo F) → FillsContract c e (merge_contract c e)
  merge_contract-Fills c e = record {
    verified = first_of-IsFilled _ _;
    mint_authority_active = first_of-IsFilled _ _;
    pausable = first_of-IsFilled _ _;
    blacklist_capability = first_of-IsFilled _ _;
    transfer_restricted = first_of-IsFilled _ _;
    buy_tax_pct = first_of-IsFilled _ _;
    sell_tax_pct = first_of-IsFilled _ _;
    is_proxy = first_of-IsFilled _ _;
    sell_simulation_ok = first_of-IsFilled _ _;
  }

  first_of-eq : (o p r : Option F) → r ≡ first_of o p → IsFilled o p r
  first_of-eq o p r e = subst (IsFilled o p) (sym e) (first_of-IsFilled o p)

  growth-Fills : (d e : Dict F) → DistinctKeys d → FillsHistory d e (merge_growth e d)
  growth-Fills d e h w = first_of-eq _ _ _ (get-merge_growth w e d h)

  windows-Fills :
      (d es : Dict (WindowStats F)) (w : String)
      → DistinctKeys es
      → FillsWindows (get w d) (get w es) (get w (merge_windows d es))
  windows-Fills d es w h =
      subst (FillsWindows (get w d) (get w es)) (sym (get-merge_windows w d es h))
        (window_of-Fills (get w d) (get w es))

  -- A merge keeps every optional value that the earlier snapshot knows and takes the others from the
  -- later one, also inside the contract, inside a window that both have, and at each window of a
  -- history of growth; only where the later one has a real split of the volume does that replace the
  -- earlier one. The chain, the address, the time, and whether the creator is known and the data is a
  -- demonstration, are those of the earlier snapshot. Windows and histories have no key twice.
  pub merge-Fills : (p : MarketState F) (a : Answer F) → Fills p a (merge p a)
  unfolding merge
  merge-Fills p a = record {
    launchpad = first_of-IsFilled _ _;
    creator_address = first_of-IsFilled _ _;
    token_created_at = first_of-IsFilled _ _;
    price = first_of-IsFilled _ _;
    market_cap = first_of-IsFilled _ _;
    liquidity = first_of-IsFilled _ _;
    liquidity_change_5m_pct = first_of-IsFilled _ _;
    volume_5m = first_of-IsFilled _ _;
    volume_15m = first_of-IsFilled _ _;
    buys_5m = first_of-IsFilled _ _;
    sells_5m = first_of-IsFilled _ _;
    unique_buyers_1m = first_of-IsFilled _ _;
    unique_buyers_5m = first_of-IsFilled _ _;
    unique_buyers_15m = first_of-IsFilled _ _;
    unique_buyers_prev_5m = first_of-IsFilled _ _;
    unique_sellers_5m = first_of-IsFilled _ _;
    unique_sellers_15m = first_of-IsFilled _ _;
    holder_count = first_of-IsFilled _ _;
    holder_growth_pct = first_of-IsFilled _ _;
    top_5pct_holders_pct = first_of-IsFilled _ _;
    top_20pct_holders_pct = first_of-IsFilled _ _;
    top_30pct_holders_pct = first_of-IsFilled _ _;
    top10_holder_pct = first_of-IsFilled _ _;
    creator_balance_pct = first_of-IsFilled _ _;
    creator_sold_pct = first_of-IsFilled _ _;
    price_change_5m = first_of-IsFilled _ _;
    price_change_15m = first_of-IsFilled _ _;
    recent_high = first_of-IsFilled _ _;
    volatility_pct = first_of-IsFilled _ _;
    expected_price_impact_pct = first_of-IsFilled _ _;
    mev_risk_score = first_of-IsFilled _ _;
    contract = merge_contract-Fills p.contract a.state.contract;
    windows = λ h w. windows-Fills p.windows a.state.windows w h;
    liquidity_growth = growth-Fills p.liquidity_growth a.state.liquidity_growth;
    market_cap_growth = growth-Fills p.market_cap_growth a.state.market_cap_growth;
    holder_growth = growth-Fills p.holder_growth a.state.holder_growth;
    buy_volume_5m = split-Fills (real_split a) p.buy_volume_5m a.state.buy_volume_5m;
    sell_volume_5m = split-Fills (real_split a) p.sell_volume_5m a.state.sell_volume_5m;
    buy_sell_basis = split-Fills (real_split a) p.buy_sell_basis a.state.buy_sell_basis;
    chain = refl;
    token_address = refl;
    timestamp = refl;
    creator_known = refl;
    is_demo = refl;
  }
