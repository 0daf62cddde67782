-- ===== src/Tests/Markets.antt =====
-- Providers of market data that fail and answer, on concrete data.
use meme_agent.Base.{
  ℕ, refl, arith, String, true, false, ◌≡◌, ◌≢◌, none, some, [], ◌∷◌, any, List, All,
}
use meme_agent.Core.Errors.{raised, data_unavailable}
use meme_agent.Float.{num}
use meme_agent.Float.Fixed.{Fixed, fixed_ops, Fixed-IsOrdered}
use meme_agent.Domain.Market.{MarketState}
use meme_agent.Float.Int.{◌+ℤ◌, ◌-ℤ◌, scaled_times, scaled_quotient}
use meme_agent.Domain.History.{Sample, update_history, growth, closest}
use meme_agent.Domain.History.Bounded.{Spaced, IsPast, IsHistory, update_history-IsHistory}
use meme_agent.Domain.Windows.{Trade, windows_from_trades}
use meme_agent.Domain.Windows.Covered.{IsCovered, windows_from_trades-AllCovered}
use meme_agent.MarketData.Health.{RegistryConfig, RegistryHealth, unbroken, fail_call}
use meme_agent.MarketData.Circuit.{fail_all, Breaks, fail_all-Breaks}
use meme_agent.MarketData.Merge.{Answer, merge}
use meme_agent.MarketData.Fills.{Fills}
use meme_agent.MarketData.Filling.{merge-Fills}
use meme_agent.MarketData.Registry.{Call, answered, failed, RegistryState, get_market_state}
use meme_agent.MarketData.Failover.{answers, is_ok, get_market_state-answers}
use meme_agent.Tests.Data.{market}

abbrev registry_config : RegistryConfig Fixed
registry_config = record {
  failure_threshold = 3;
  cooldown_s = num 60;
  essential = "rpc" ∷ [];
  persists = true;
}

abbrev healthy : RegistryHealth Fixed
healthy = record { health = λ name. unbroken; saved = none }

-- The third failure, at 12 seconds.
fail_all-Breaks_example :
    Breaks registry_config healthy
      (fail_call registry_config
        (fail_all registry_config healthy "rpc" (("timeout", num 5) ∷ ("timeout", num 9) ∷ []))
        "rpc"
        "quota"
        (num 12))
      "rpc"
      (num 12)
      3
fail_all-Breaks_example =
    fail_all-Breaks registry_config healthy "rpc" "quota" (num 12)
      (("timeout", num 5) ∷ ("timeout", num 9) ∷ [])

-- What an explorer knows: little, but who the creator is.
abbrev explorer : Answer Fixed
explorer = record {
  state = record market { price = none; creator_known = true; liquidity = some (num 7) };
  data_sources = "explorer" ∷ [];
}

abbrev pool : MarketState Fixed
pool = record market { creator_known = false; volume_5m = none }

merge-Fills_example : Fills pool explorer (merge pool explorer)
merge-Fills_example = merge-Fills pool explorer

abbrev registry_state : RegistryState Fixed
registry_state = record { circuits = healthy; last_discovery_sources = []; last_state_sources = [] }

abbrev calls : List (Call Fixed (Answer Fixed))
calls =
    record { name = "codex"; checked_at = num 1; reply = failed "quota"; ended_at = num 2 }
    ∷ record { name = "rpc"; checked_at = num 3; reply = answered explorer; ended_at = num 4 }
    ∷ []

apart : ◌≢◌ {A = String} "codex" "rpc"
apart e = cc

get_market_state-answers_example :
    (is_ok (get_market_state registry_config registry_state "0xAb" calls).1
      ≡ any (answers registry_config healthy) calls)
    × (any (answers registry_config healthy) calls ≡ false
        → (get_market_state registry_config registry_state "0xAb" calls).1
          ≡ raised data_unavailable)
get_market_state-answers_example =
    get_market_state-answers registry_config Fixed-IsOrdered registry_state "0xAb" calls
      ((apart, tt), (tt, tt))

abbrev sampled : ℕ → Sample Fixed
sampled at = record { at = at; liquidity = some (num 100); market_cap = none; price = some (num 2) }

-- Samples of 27 hours and of 20 minutes ago; the first one is dropped.
abbrev history : List (Sample Fixed)
history = sampled 1_000_000 ∷ sampled 96_000_000_000 ∷ []

history-IsPast : IsPast 97_200_000_000 history
history-IsPast = (omega arith, (omega arith, tt))

history-Spaced : Spaced history
history-Spaced = (omega arith, tt)

update_history-IsHistory_example :
    IsHistory 97_200_000_000
      (update_history history 97_200_000_000 (some (num 130)) none (some (num 3)))
update_history-IsHistory_example =
    update_history-IsHistory history 97_200_000_000 (some (num 130)) none (some (num 3))
      history-Spaced history-IsPast refl

-- The liquidity has grown by a third since an hour before.
grown_third :
    growth (sampled 1_000_000 ∷ []) 3_601_000_000 (λ s. s.liquidity) (some (num 133))
    ≡ ("1h", num 33) ∷ []
unfolding growth closest scaled_times scaled_quotient ◌-ℤ◌ ◌+ℤ◌
grown_third = refl

abbrev bought_at : ℕ → Trade Fixed
bought_at at = record {
  at = at;
  is_buy = true;
  usd = num 20;
  trader = "0xab";
  price = some (num 2);
}

-- A full page of two trades, of 400 and of 100 seconds ago: it covers the last five minutes only.
windows_from_trades-AllCovered_example :
    All (IsCovered 97_200_000_000 (bought_at 96_800_000_000 ∷ bought_at 97_100_000_000 ∷ [])) (
      windows_from_trades 97_200_000_000 2 2
        (bought_at 96_800_000_000 ∷ bought_at 97_100_000_000 ∷ []))
windows_from_trades-AllCovered_example =
    windows_from_trades-AllCovered 97_200_000_000 2 2 (bought_at 96_800_000_000)
      (bought_at 97_100_000_000 ∷ []) (omega arith) (omega arith)
