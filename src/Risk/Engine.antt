-- ===== src/Risk/Engine.antt =====
-- `RiskEngine` of backend/app/risk/engine.py: rules run in order, a crashing rule is a veto.
use Prim.Native.String
use meme_agent.Base.{String, Bool, List, [], ◌∷◌, ◌++◌, any, map, if◌then◌else◌}
use meme_agent.Core.Errors.{Result, ok, raised}
use meme_agent.Core.Types.{
  RiskCategory, approve, reject, Severity, info, warn, veto, is_veto, Side, buy, sell,
  contract_risk, liquidity_risk, market_risk, holder_risk, creator_risk, execution_risk, mev_risk,
  portfolio_risk,
}
use meme_agent.Float.{FloatOps, min, num, sum}
use meme_agent.Portfolio.State.{PortfolioState}
use meme_agent.Risk.Model.{RiskContext, RiskFlag, RiskAssessment, flag_of}
use meme_agent.Risk.TokenRules.{contract_rules, trading_rules, holder_rules, creator_rules}
use meme_agent.Risk.MarketRules.{liquidity_rules, market_rules, execution_rules, mev_rules}
use meme_agent.Risk.PortfolioRules.{portfolio_rules}

-- A rule may change the portfolio that it reads.
pub record RiskRule (F : Type 0) : Type 0 where
  pub name : String
  pub category : RiskCategory
  pub fn : RiskContext F → PortfolioState F × Result (List RiskFlag)

abbrev pub is_vetoed : List RiskFlag → Bool
is_vetoed flags = any (λ f. is_veto f.severity) flags

module _ {F : Type 0} ⦃n : FloatOps F⦄ where
  -- A rule that only reads.
  abbrev pub reading :
      (RiskContext F → Result (List RiskFlag))
      → RiskContext F
      → PortfolioState F × Result (List RiskFlag)
  reading f x = (x.portfolio, f x)

  abbrev rule : String → RiskCategory → (RiskContext F → Result (List RiskFlag)) → RiskRule F
  rule name cat f = record { name = name; category = cat; fn = reading f }

  abbrev pub default_rules : List (RiskRule F)
  default_rules =
      rule "contract" contract_risk contract_rules
      ∷ rule "liquidity" liquidity_risk liquidity_rules
      ∷ rule "trading" market_risk trading_rules
      ∷ rule "holders" holder_risk holder_rules
      ∷ rule "creator" creator_risk creator_rules
      ∷ rule "market" market_risk market_rules
      ∷ rule "execution" execution_risk execution_rules
      ∷ rule "mev" mev_risk mev_rules
      ∷ record { name = "portfolio"; category = portfolio_risk; fn = portfolio_rules }
      ∷ []

  -- `rules or DEFAULT_RULES`
  abbrev pub engine_rules : List (RiskRule F) → List (RiskRule F)
  engine_rules [] = default_rules
  engine_rules (r ∷ rules) = r ∷ rules

  -- What a rule adds: its flags, or one veto where it raises.
  abbrev pub flags_or_veto : RiskRule F → Result (List RiskFlag) → List RiskFlag
  flags_or_veto r (ok flags) = flags
  flags_or_veto r (raised e) = flag_of veto (String.◌++◌ "RULE_ERROR:" r.name) r.category ∷ []

  unfoldable pub run_rules : List (RiskRule F) → RiskContext F → PortfolioState F × List RiskFlag
  run_rules [] x = (x.portfolio, [])
  run_rules (r ∷ rules) x =
      let (p, result) = r.fn x in
      let (p', flags) = run_rules rules (record x { portfolio = p }) in
      (p', flags_or_veto r result ++ flags)

  abbrev pub points_of : Severity → F
  points_of veto = num 40
  points_of warn = num 10
  points_of info = num 0

  abbrev pub points : RiskFlag → F
  points f = points_of f.severity

  unfoldable pub risk_score : List RiskFlag → F
  risk_score flags = min (num 100) (sum (map points flags))

  -- Exits are not subject to the rules.
  abbrev pub gather : Side → List (RiskRule F) → RiskContext F → PortfolioState F × List RiskFlag
  gather sell rules x = (x.portfolio, flag_of info "EXIT_ALLOWED" portfolio_risk ∷ [])
  gather buy rules x = run_rules rules x

  unfoldable pub assess : List (RiskRule F) → RiskContext F → PortfolioState F × RiskAssessment F
  unfolding run_rules risk_score
  assess rules x =
      let (p, flags) = gather x.intent.side rules x in
      (
        p,
        record {
          decision = if is_vetoed flags then reject else approve;
          flags = flags;
          risk_score = risk_score flags;
          side = x.intent.side;
          token_address = x.market.token_address;
          amount_usdc = x.intent.amount_usdc;
          mode = x.intent.mode;
        },
      )
