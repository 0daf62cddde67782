-- ===== src/Domain/Market/Flow.antt =====
-- The buy and sell flow of a `MarketState`: its net pressure and the split that is derived from counts.
use Prim.Native.Nat.{◌+◌ as ◌⊹◌}
use meme_agent.Base.{
  ℕ, String, Bool, not, ◌&&◌, ◌||◌, ◌≡◌, Option, none, some, nat_eq, if◌then◌else◌, arith,
}
use meme_agent.Float.{FloatOps, ◌+◌, ◌-◌, ◌*◌, gt, num, over, truthy}
use meme_agent.Domain.Market.{MarketState, present, or_zero, truthy_count}

module _ {F : Type 0} ⦃n : FloatOps F⦄ where
  -- By the counts; the total is an int above 0 where it divides.
  abbrev count_pressure : Option ℕ → Option ℕ → Option F
  count_pressure b s =
      let total = or_zero b ⊹ or_zero s in
      if not (present b) && not (present s)
      then none
      else if nat_eq total 0
      then none
      else some (over (num (or_zero b) - num (or_zero s)) (num total))

  abbrev flow_pressure : Option F → Option F → Option F → Option F
  flow_pressure (some b) (some s) counts =
      if gt (b + s) (num 0) then some (over (b - s) (b + s)) else counts
  flow_pressure _ _ counts = counts

  unfoldable pub net_pressure : MarketState F → Option F
  net_pressure m =
      flow_pressure m.buy_volume_5m m.sell_volume_5m (count_pressure m.buys_5m m.sells_5m)

  abbrev pub traded : MarketState F → Bool
  traded m = truthy_count m.buys_5m || truthy_count m.sells_5m

  -- The share of the volume that a count has of all trades.
  abbrev pub share_of : F → Option ℕ → ℕ → F
  share_of volume k total = over (volume * num (or_zero k)) (num total)

  abbrev pub estimated : MarketState F → F → MarketState F
  estimated m volume =
      let total = or_zero m.buys_5m ⊹ or_zero m.sells_5m in
      record m {
        buy_volume_5m = some (share_of volume m.buys_5m total);
        sell_volume_5m = some (share_of volume m.sells_5m total);
        buy_sell_basis = some "estimated_from_counts";
      }

  abbrev pub by_counts : MarketState F → MarketState F
  by_counts m =
      if present m.buys_5m || present m.sells_5m
      then record m { buy_sell_basis = if traded m then some "counts" else none }
      else m

  abbrev pub by_volume : MarketState F → Option F → MarketState F
  by_volume m none = by_counts m
  by_volume m (some volume) =
      if truthy volume && gt volume (num 0) && traded m then estimated m volume else by_counts m

  abbrev pub by_flow : MarketState F → Option String → MarketState F
  by_flow m (some basis) = m
  by_flow m none =
      if present m.buy_volume_5m && present m.sell_volume_5m
      then record m { buy_sell_basis = some "usd" }
      else by_volume m m.volume_5m

  unfoldable pub derive_buy_sell : MarketState F → MarketState F
  derive_buy_sell m = by_flow m m.buy_sell_basis

  -- Deriving the split again changes nothing, and a split that is known on both sides is not replaced.
  derive_buy_sell_lem :
      (m : MarketState F)
      → (derive_buy_sell (derive_buy_sell m) ≡ derive_buy_sell m)
        × ((b s : F)
            → m.buy_volume_5m ≡ some b
            → m.sell_volume_5m ≡ some s
            → ((derive_buy_sell m).buy_volume_5m ≡ some b)
              × ((derive_buy_sell m).sell_volume_5m ≡ some s))
  unfolding derive_buy_sell
  derive_buy_sell_lem m = (ground arith, λ b s hb hs. ground arith)
