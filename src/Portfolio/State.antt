-- ===== src/Portfolio/State.antt =====
-- `PortfolioState` of backend/app/portfolio/state.py. A method that changes the object returns the
-- new state, and beside it what it returns or raises. `closed` holds references to positions: their
-- ids. The id of a new position (`uuid4().hex`) is an argument of `apply_buy`.
use Prim.Native.Nat.{◌/◌}
use Prim.Native.String
use meme_agent.Base.{
  arith, ◌≡◌, ℕ, String, ◌==◌, Bool, false, Option, none, some, List, [], ◌∷◌, Dict, values, map,
  keep, lower, nat_eq, length, if◌then◌else◌,
}
use meme_agent.Core.Types.{TradingMode}
use meme_agent.Float.{FloatOps, ◌+◌, num, min, sum}
use meme_agent.Domain.Market.{present}
use meme_agent.Portfolio.Position.{Position, is_open, market_value, unrealized_pnl}

pub record PortfolioState (F : Type 0) : Type 0 where
  pub mode : TradingMode
  pub starting_cash : F
  pub cash_usdc : F
  pub positions : Dict (Position F)
  pub closed : List String
  pub realized_today : F
  pub realized_total : F
  pub day : Option ℕ
  pub last_trade_at : Dict ℕ
  pub pending_tokens : List String

-- `now.date()`, as a number of days.
abbrev pub date : ℕ → ℕ
date now = now / 86_400_000_000

abbrev same_day : Option ℕ → ℕ → Bool
same_day none d = false
same_day (some e) d = nat_eq e d

-- The key of `last_trade_at` and of `pending_tokens`.
unfoldable pub trade_key : String → String → String
trade_key chain token = String.◌++◌ chain (String.◌++◌ ":" (lower token))

abbrev same_text : Option String → String → Bool
same_text none s = false
same_text (some t) s = t == s

module _ {F : Type 0} where
  unfoldable pub open_positions : PortfolioState F → List (Position F)
  open_positions p = keep is_open (values p.positions)

  unfoldable pub open_count : PortfolioState F → ℕ
  unfolding open_positions
  open_count p = length (open_positions p)

  unfoldable pub first_with_token : String → List (Position F) → Option (Position F)
  first_with_token t [] = none
  first_with_token t (q ∷ qs) = if lower q.token_address == t then some q else first_with_token t qs

  unfoldable pub position_for_token : PortfolioState F → String → Option (Position F)
  unfolding first_with_token open_positions
  position_for_token p token = first_with_token (lower token) (open_positions p)

  unfoldable pub has_open_position : PortfolioState F → String → Bool
  unfolding position_for_token
  has_open_position p token = present (position_for_token p token)

module _ {F : Type 0} ⦃n : FloatOps F⦄ where
  unfoldable pub total_exposure : PortfolioState F → F
  unfolding open_positions
  total_exposure p = sum (map market_value (open_positions p))

  unfoldable pub token_exposure : PortfolioState F → String → F
  unfolding position_for_token
  token_exposure p token = elim (position_for_token p token) [
    | none ↦ num 0
    | some q ↦ market_value q
  ]

  unfoldable pub chain_exposure : PortfolioState F → String → F
  unfolding open_positions
  chain_exposure p chain = sum (map market_value (keep (λ q. q.chain == chain) (open_positions p)))

  unfoldable pub launchpad_exposure : PortfolioState F → String → F
  unfolding open_positions
  launchpad_exposure p launchpad =
      sum (map market_value (keep (λ q. same_text q.launchpad launchpad) (open_positions p)))

  unfoldable pub total_value : PortfolioState F → F
  unfolding total_exposure
  total_value p = p.cash_usdc + total_exposure p

  unfoldable pub roll : ℕ → PortfolioState F → PortfolioState F
  roll now p =
      if same_day p.day (date now)
      then p
      else record p { day = some (date now); realized_today = num 0 }

  -- Rolls the day, and reads realized results plus unrealized losses.
  unfoldable pub daily_pnl : ℕ → PortfolioState F → PortfolioState F × F
  unfolding roll open_positions
  daily_pnl now p =
      let p' = roll now p in
      let losses = map (λ q. min (unrealized_pnl q) (num 0)) (open_positions p') in
      (p', p'.realized_today + sum losses)

  -- Rolling the day touches the day and its realized result only.
  pub positions-roll : (now : ℕ) (p : PortfolioState F) → (roll now p).positions ≡ p.positions
  unfolding roll
  positions-roll now p = ground arith

  pub cash_usdc-roll : (now : ℕ) (p : PortfolioState F) → (roll now p).cash_usdc ≡ p.cash_usdc
  unfolding roll
  cash_usdc-roll now p = ground arith

  pub closed-roll : (now : ℕ) (p : PortfolioState F) → (roll now p).closed ≡ p.closed
  unfolding roll
  closed-roll now p = ground arith
