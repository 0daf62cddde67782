-- ===== src/Risk/TokenRules.antt =====
-- The rules of backend/app/risk/engine.py on the token: contract, two-way trading, holders, creator.
use meme_agent.Base.{
  ℕ, String, Bool, true, false, not, ◌&&◌, Option, none, some, List, [], ◌∷◌, ◌++◌, elem, lower,
  ltb, if◌then◌else◌,
}
use meme_agent.Core.Errors.{Result, ok}
use meme_agent.Core.Types.{info, warn, veto, contract_risk, market_risk, holder_risk, creator_risk}
use meme_agent.Float.{FloatOps, gt}
use meme_agent.Domain.Market.{has_two_way_trading, one_sided_trading, truthy_text}
use meme_agent.Risk.Model.{RiskContext, RiskFlag, flag_of, veto_if, warn_if}

abbrev pub is_true : Option Bool → Bool
is_true (some true) = true
is_true (some false) = false
is_true none = false

abbrev pub is_false : Option Bool → Bool
is_false (some false) = true
is_false (some true) = false
is_false none = false

abbrev pub is_unknown : Option Bool → Bool
is_unknown none = true
is_unknown (some b) = false

-- The local `flag`: informational once trading both ways was seen.
abbrev pub contract_flag : Bool → String → Bool → RiskFlag
contract_flag two_way rule blocking =
    flag_of (if blocking && not two_way then veto else info) rule contract_risk

-- `if finding and the limit asks for it: … elif it is unknown: …`
abbrev pub finding : Bool → Bool → String → Bool → String → List RiskFlag
finding two_way found rule unknown unknown_rule =
    if found
    then contract_flag two_way rule true ∷ []
    else if unknown
    then contract_flag two_way unknown_rule false ∷ []
    else []

abbrev pub fewer : Option ℕ → ℕ → Bool
fewer none limit = false
fewer (some k) limit = ltb k limit

abbrev pub lowered : Option String → String
lowered none = ""
lowered (some s) = lower s

module _ {F : Type 0} ⦃n : FloatOps F⦄ where
  abbrev pub exceeds : Option F → F → Bool
  exceeds none limit = false
  exceeds (some x) limit = gt x limit

  -- The findings that trading both ways turns into information.
  unfoldable pub capability_flags : Bool → RiskContext F → List RiskFlag
  capability_flags two_way x =
      let c = x.market.contract in
      let l = x.limits in
      finding two_way (is_false c.verified && l.require_contract_verified) "CONTRACT_UNVERIFIED"
        (is_unknown c.verified) "CONTRACT_VERIFICATION_UNKNOWN"
      ++ (finding two_way (is_true c.mint_authority_active && l.veto_active_mint_authority)
            "MINT_AUTHORITY_ACTIVE" (is_unknown c.mint_authority_active) "MINT_AUTHORITY_UNKNOWN"
          ++ (finding two_way (is_true c.blacklist_capability && l.veto_blacklist_capability)
                "BLACKLIST_CAPABILITY" (is_unknown c.blacklist_capability)
                "BLACKLIST_CAPABILITY_UNKNOWN"
              ++ (finding two_way (is_true c.transfer_restricted) "TRANSFER_RESTRICTED" false ""
                  ++ finding two_way (is_true c.pausable && l.veto_pausable) "PAUSABLE"
                      (is_unknown c.pausable) "PAUSABLE_UNKNOWN")))

  -- The measured facts, which veto either way, and the note on proxies.
  unfoldable pub measured_flags : RiskContext F → List RiskFlag
  measured_flags x =
      let c = x.market.contract in
      let l = x.limits in
      veto_if (exceeds c.buy_tax_pct l.max_tax_pct) "BUY_TAX_TOO_HIGH" contract_risk
      ++ (veto_if (exceeds c.sell_tax_pct l.max_tax_pct) "SELL_TAX_TOO_HIGH" contract_risk
          ++ (veto_if (is_false c.sell_simulation_ok) "SELL_SIMULATION_FAILED" contract_risk
              ++ (if is_true c.is_proxy
                  then flag_of info "UPGRADEABLE_PROXY" contract_risk ∷ []
                  else [])))

  unfoldable pub contract_rules : RiskContext F → Result (List RiskFlag)
  unfolding capability_flags measured_flags
  contract_rules x =
      ok (capability_flags (is_true (has_two_way_trading x.market)) x ++ measured_flags x)

  unfoldable pub trading_rules : RiskContext F → Result (List RiskFlag)
  trading_rules x = ok (
      veto_if (one_sided_trading x.market x.limits.min_buys_for_one_sided_check) "ONE_SIDED_TRADING"
        market_risk)

  abbrev pub top10_flags : Option F → F → List RiskFlag
  top10_flags none limit = flag_of warn "HOLDER_DATA_MISSING" holder_risk ∷ []
  top10_flags (some pct) limit = veto_if (gt pct limit) "TOP10_CONCENTRATION" holder_risk

  unfoldable pub holder_rules : RiskContext F → Result (List RiskFlag)
  holder_rules x =
      let m = x.market in
      let l = x.limits in
      ok (
        top10_flags m.top10_holder_pct l.max_top10_holder_pct
        ++ warn_if (exceeds m.top_5pct_holders_pct l.warn_top5pct_holders_pct)
            "TOP5PCT_CONCENTRATION_HIGH" holder_risk
        ++ warn_if (exceeds m.top_20pct_holders_pct l.warn_top20pct_holders_pct)
            "TOP20PCT_CONCENTRATION_HIGH" holder_risk
        ++ warn_if (exceeds m.top_30pct_holders_pct l.warn_top30pct_holders_pct)
            "TOP30PCT_CONCENTRATION_HIGH" holder_risk
        ++ warn_if (fewer m.holder_count l.min_holder_count) "FEW_HOLDERS" holder_risk)

  unfoldable pub creator_rules : RiskContext F → Result (List RiskFlag)
  creator_rules x =
      let m = x.market in
      let l = x.limits in
      let listed = elem (lowered m.creator_address) x.controls.blacklisted_creators in
      ok (
        veto_if (truthy_text m.creator_address && listed) "CREATOR_BLACKLISTED" creator_risk
        ++ (if not m.creator_known
            then flag_of warn "CREATOR_UNVERIFIED" creator_risk ∷ []
            else (veto_if (exceeds m.creator_sold_pct l.max_creator_sold_pct) "CREATOR_DUMPING"
                  creator_risk
                ++ warn_if (exceeds m.creator_balance_pct l.max_creator_balance_pct)
                    "CREATOR_HOLDS_MUCH" creator_risk)))
