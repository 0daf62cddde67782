-- ===== src/Tests/Monitoring.antt =====
-- The theorems on discovery and on derived flows, at concrete data.
use meme_agent.Base.{
  ◌≤◌, String, ◌==◌, false, ◌≡◌, refl, none, some, [], List, ◌∷◌, All, length, get, lower,
}
use Prim.Native.Nat.{◌<◌}
use meme_agent.Core.Errors.{ok, data_unavailable}
use meme_agent.Float.{num, neg}
use meme_agent.Float.Int.{◌+ℤ◌}
use meme_agent.Float.Fixed.{Fixed, fixed_ops, Fixed-IsOrdered}
use meme_agent.Domain.Market.{MarketState}
use meme_agent.Discovery.Registry.{
  LaunchpadToken, Registry, watching, discovered, key_of, token_key, upsert, list_by_status,
}
use meme_agent.Discovery.Registry.Upserts.{IsUpdated, upsert-IsUpdated}
use meme_agent.Discovery.Monitoring.{MonitoringConfig, is_due, due_candidates, interval_for}
use meme_agent.Discovery.Monitoring.Due.{Ascending, IsReady, due_candidates_lem}
use meme_agent.Discovery.Monitoring.Lifecycle.{fail_all, IsDead, fail_all_lem}
use meme_agent.Discovery.Ranking.{RankingConfig, Snapshot, is_expired, rank_candidates}
use meme_agent.Discovery.Ranking.Eligible.{IsChosen, rank_candidates_lem}
use meme_agent.Tests.Data.{noon, market}

abbrev monitoring : MonitoringConfig Fixed
monitoring = record {
  hot_interval_s = num 30;
  warm_interval_s = num 120;
  cold_interval_s = num 600;
  score_improve_threshold = num 10;
  score_decline_threshold = neg (num 15);
  max_per_cycle = 2;
  max_consecutive_failures = 3;
}

-- Snapshots are texts here.
abbrev token : LaunchpadToken Fixed String
token = record {
  chain = "arc";
  token_address = "0xAb";
  launchpad = some "pump";
  launchpad_contract = none;
  launch_event = none;
  launch_tx_hash = none;
  creator_address = none;
  launched_at = none;
  discovered_at = 0;
  status = watching;
  symbol = none;
  name = none;
  initial_score = some (num 60);
  current_score = some (num 50);
  score_delta = none;
  priority = "WARM";
  last_monitored_at = some 0;
  last_score_at = none;
  meta = record { last_snapshot = none; monitor_failures = some 1 };
}

abbrev hot : LaunchpadToken Fixed String
hot = record token { token_address = "0xcd"; priority = "HOT" }

abbrev registry : Registry Fixed String
registry = ("arc:0xab", token) ∷ ("arc:0xcd", hot) ∷ []

-- The hot one first.
both_due : due_candidates monitoring noon registry ≡ (hot ∷ token ∷ [])
unfolding due_candidates is_due interval_for list_by_status
both_due = refl

due_candidates_lem_example :
    (length (due_candidates monitoring noon registry) ≤ 2)
    × Ascending (due_candidates monitoring noon registry)
    × All (IsReady monitoring noon) (due_candidates monitoring noon registry)
due_candidates_lem_example = due_candidates_lem Fixed-IsOrdered monitoring noon registry

abbrev failed_twice : LaunchpadToken Fixed String
failed_twice = fail_all monitoring ((noon, data_unavailable) ∷ (noon, data_unavailable) ∷ []) token

fail_all_lem_example :
    (3 < 3 → (failed_twice.status ≡ watching) × (failed_twice.priority ≡ "WARM"))
    × (3 ≤ 3 → IsDead failed_twice)
fail_all_lem_example =
    fail_all_lem monitoring noon data_unavailable ((noon, data_unavailable) ∷ []) token

-- The same token, found again without its launchpad.
abbrev again : LaunchpadToken Fixed String
again = record token { token_address = "0xAB"; launchpad = none; status = discovered }

recorded : get (token_key again) registry ≡ some token
unfolding key_of get lower
recorded = refl

upsert-IsUpdated_example :
    ((after : LaunchpadToken Fixed String) × ((get (token_key again) (upsert again registry)
          ≡ some after)
        × IsUpdated token again after))
    × ((key : String)
        → token_key again == key ≡ false
        → get key (upsert again registry) ≡ get key registry)
upsert-IsUpdated_example = upsert-IsUpdated again token registry recorded

-- Only a total volume and counts.
abbrev unsplit : MarketState Fixed
unsplit = record market { buy_volume_5m = none; sell_volume_5m = none }

-- A stand-in for the logarithm.
abbrev log10 : Fixed → Fixed
log10 x = x

abbrev seen_token : LaunchpadToken Fixed (Snapshot Fixed)
seen_token = record {
  chain = "arc";
  token_address = "0xEf";
  launchpad = none;
  launchpad_contract = none;
  launch_event = none;
  launch_tx_hash = none;
  creator_address = none;
  launched_at = none;
  discovered_at = noon;
  status = watching;
  symbol = none;
  name = none;
  initial_score = none;
  current_score = none;
  score_delta = none;
  priority = "WARM";
  last_monitored_at = some noon;
  last_score_at = none;
  meta = record { last_snapshot = none; monitor_failures = none };
}

abbrev ranking : RankingConfig Fixed
ranking = record {
  min_liquidity_usdc = num 5_000;
  min_market_cap_usdc = num 5_000;
  max_age_s = num 86_400;
  eval_min_interval_s = num 300;
  max_per_cycle = 40;
}

rank_candidates_lem_example :
    (picked : List String) × ((rank_candidates log10 (seen_token ∷ []) [] noon ranking ≡ ok picked)
      × (All (IsChosen ranking [] noon (seen_token ∷ [])) picked × (length picked ≤ 40)))
rank_candidates_lem_example =
    rank_candidates_lem Fixed-IsOrdered log10 (seen_token ∷ []) [] noon ranking refl

one_picked : rank_candidates log10 (seen_token ∷ []) [] noon ranking ≡ ok ("0xef" ∷ [])
unfolding rank_candidates is_expired get lower ◌+ℤ◌
one_picked = refl
