-- ===== src/MarketData/Registry.antt =====
-- `discover_tokens` and `get_market_state` of `MarketDataRegistry` in
-- backend/app/market_data/registry.py. A `Call` holds what a provider would do if it were asked, and the
-- clock before and after.
use meme_agent.Base.{
  String, Bool, true, false, Option, none, some, List, [], ◌∷◌, ◌++◌, Dict, put, elem, lower,
  if◌then◌else◌,
}
use meme_agent.Core.Errors.{Result, ok, raised, data_unavailable}
use meme_agent.Float.{FloatOps}
use meme_agent.Domain.Market.{MarketState}
use meme_agent.Domain.Market.Flow.{derive_buy_sell}
use meme_agent.MarketData.Health.{
  RegistryConfig, RegistryHealth, no_names, available, ok_call, fail_call,
}
use meme_agent.MarketData.Merge.{Answer, merge, is_complete}

-- A provider answers, or raises DataUnavailable or any other exception.
pub data Reply (A : Type 0) : Type 0 where
  answered : A → Reply A
  failed : String → Reply A

pub record Call (F : Type 0) (A : Type 0) : Type 0 where
  pub name : String
  pub checked_at : F
  pub reply : Reply A
  pub ended_at : F

pub record RegistryState (F : Type 0) : Type 0 where
  pub circuits : RegistryHealth F
  pub last_discovery_sources : List String
  pub last_state_sources : Dict (List String)

-- What `discover_tokens` has collected so far; `found` is also what it has seen.
pub record Found (F : Type 0) : Type 0 where
  pub circuits : RegistryHealth F
  pub found : List String
  pub sources : List String

-- What `get_market_state` has merged so far.
pub record Gathered (F : Type 0) : Type 0 where
  pub circuits : RegistryHealth F
  pub merged : Option (MarketState F)
  pub sources : List String

unfoldable pub add_tokens : List String → List String → List String
add_tokens found [] = found
add_tokens found (token ∷ tokens) =
    let t = lower token in add_tokens (if elem t found then found else found ++ t ∷ []) tokens

module _ {F : Type 0} ⦃n : FloatOps F⦄ (cfg : RegistryConfig F) where
  abbrev pub found_by : Found F → String → F → Reply (List String) → Found F
  found_by g name now (answered tokens) = record {
    circuits = ok_call cfg g.circuits name now;
    found = add_tokens g.found tokens;
    sources = g.sources ++ name ∷ [];
  }
  found_by g name now (failed error) = record g {
    circuits = fail_call cfg g.circuits name error now;
  }

  unfoldable pub ask_tokens : Found F → Call F (List String) → Found F
  unfolding add_tokens
  ask_tokens g c =
      if available cfg g.circuits c.name c.checked_at
      then found_by g c.name c.ended_at c.reply
      else g

  unfoldable pub discover_from : List (Call F (List String)) → Found F → Found F
  unfolding ask_tokens
  discover_from [] g = g
  discover_from (c ∷ cs) g = discover_from cs (ask_tokens g c)

  -- No token is an error, whether or not a provider failed.
  unfoldable pub discover_tokens :
      RegistryState F → List (Call F (List String)) → RegistryState F × Result (List String)
  unfolding discover_from
  discover_tokens st calls =
      let g = discover_from calls (record { circuits = st.circuits; found = []; sources = [] }) in
      (
        record st { circuits = g.circuits; last_discovery_sources = g.sources },
        if no_names g.found then raised data_unavailable else ok g.found,
      )

  -- A provider that names no source is the source.
  abbrev pub labelled : String → Answer F → Answer F
  labelled name a = if no_names a.data_sources then record a { data_sources = name ∷ [] } else a

  abbrev pub merge_into : Option (MarketState F) → Answer F → MarketState F
  merge_into none a = a.state
  merge_into (some m) a = merge m a

  abbrev pub gathered_by : Gathered F → String → F → Reply (Answer F) → Gathered F
  gathered_by g name now (answered a) =
      let labelled_answer = labelled name a in
      record {
        circuits = ok_call cfg g.circuits name now;
        merged = some (
            merge_into g.merged
              (record labelled_answer { state = derive_buy_sell labelled_answer.state }));
        sources = g.sources ++ name ∷ [];
      }
  gathered_by g name now (failed error) = record g {
    circuits = fail_call cfg g.circuits name error now;
  }

  unfoldable pub ask_state : Gathered F → Call F (Answer F) → Gathered F
  ask_state g c =
      if available cfg g.circuits c.name c.checked_at
      then gathered_by g c.name c.ended_at c.reply
      else g

  unfoldable pub is_done : Option (MarketState F) → Result Bool
  is_done none = ok false
  is_done (some m) = is_complete m

  -- Providers are asked until the snapshot is complete.
  unfoldable pub gather : List (Call F (Answer F)) → Gathered F → Gathered F × Result (Unit {0})
  unfolding ask_state is_done
  gather [] g = (g, ok tt)
  gather (c ∷ cs) g = elim (is_done g.merged) [
    | raised e ↦ (g, raised e)
    | ok true ↦ (g, ok tt)
    | ok false ↦ gather cs (ask_state g c)
  ]

  abbrev pub conclude :
      RegistryState F
      → String
      → Gathered F
      → Option (MarketState F)
      → RegistryState F × Result (MarketState F)
  conclude st token g none = (record st { circuits = g.circuits }, raised data_unavailable)
  conclude st token g (some m) = (
    record st {
      circuits = g.circuits;
      last_state_sources = put (lower token) g.sources st.last_state_sources;
    },
    ok (derive_buy_sell m),
  )

  abbrev pub answer_of :
      RegistryState F
      → String
      → Gathered F × Result (Unit {0})
      → RegistryState F × Result (MarketState F)
  answer_of st token (g, raised e) = (record st { circuits = g.circuits }, raised e)
  answer_of st token (g, ok _) = conclude st token g g.merged

  unfoldable pub get_market_state :
      RegistryState F → String → List (Call F (Answer F)) → RegistryState F × Result (MarketState F)
  unfolding gather
  get_market_state st token calls =
      answer_of st token
        (gather calls (record { circuits = st.circuits; merged = none; sources = [] }))
