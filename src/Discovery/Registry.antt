-- ===== src/Discovery/Registry.antt =====
-- backend/app/discovery/registry.py: tokens and the registry that holds one per chain and address.
-- `meta` keeps the entries that the monitoring reads; `S` is the type of a snapshot.
pub mod Upserts
use Prim.Native.String
use meme_agent.Base.{
  ℕ, String, Bool, true, false, ◌&&◌, ◌||◌, Option, none, some, List, [], ◌∷◌, Dict, get, put,
  values, keep, lower, leb, ◌==◌, if◌then◌else◌,
}
use meme_agent.Float.{FloatOps, ◌-◌, num, truthy}
use meme_agent.Domain.Market.{present}

pub data TokenStatus : Type 0 where
  discovered screening watching improving qualified signal executing rejected dropped : TokenStatus
  lost_momentum expired : TokenStatus

pub record Meta (S : Type 0) : Type 0 where
  pub last_snapshot : Option S
  pub monitor_failures : Option ℕ

pub record LaunchpadToken (F S : Type 0) : Type 0 where
  pub chain : String
  pub token_address : String
  pub launchpad : Option String
  pub launchpad_contract : Option String
  pub launch_event : Option String
  pub launch_tx_hash : Option String
  pub creator_address : Option String
  pub launched_at : Option ℕ
  pub discovered_at : ℕ
  pub status : TokenStatus
  pub symbol : Option String
  pub name : Option String
  pub initial_score : Option F
  pub current_score : Option F
  pub score_delta : Option F
  pub priority : String
  pub last_monitored_at : Option ℕ
  pub last_score_at : Option ℕ
  pub meta : Meta S

abbrev pub Registry : Type 0 → Type 0 → Type 0
Registry F S = Dict (LaunchpadToken F S)

abbrev pub is_discovered : TokenStatus → Bool
is_discovered discovered = true
is_discovered _ = false

-- `f"{chain}:{address.lower()}"`
unfoldable pub key_of : String → String → String
key_of chain address = String.◌++◌ chain (String.◌++◌ ":" (lower address))

-- The known value, or else the new one.
abbrev pub known_or : {A : Type 0} → Option A → Option A → Option A
known_or none new = new
known_or (some old) new = some old

-- `dict.update`: what the new one has replaces what the old one has.
abbrev pub update : {A : Type 0} → Option A → Option A → Option A
update old none = old
update old (some new) = some new

abbrev pub at_or_after : Option ℕ → ℕ → Bool
at_or_after none since = false
at_or_after (some t) since = leb since t

unfoldable pub merge_meta : {S : Type 0} → Meta S → Meta S → Meta S
merge_meta old new = record {
  last_snapshot = update old.last_snapshot new.last_snapshot;
  monitor_failures = update old.monitor_failures new.monitor_failures;
}

module _ {F : Type 0} ⦃n : FloatOps F⦄ where
  -- `a or b` of optional floats: 0 counts as missing.
  abbrev pub score_or : Option F → Option F → Option F
  score_or none b = b
  score_or (some a) b = if truthy a then some a else b

  abbrev pub score_or_zero : Option F → F
  score_or_zero none = num 0
  score_or_zero (some a) = a

module _ {F S : Type 0} where
  abbrev pub token_key : LaunchpadToken F S → String
  token_key t = key_of t.chain t.token_address

  unfoldable pub find : String → String → Registry F S → Option (LaunchpadToken F S)
  find chain address reg = get (key_of chain address) reg

  unfoldable pub list_by_status : (TokenStatus → Bool) → Registry F S → List (LaunchpadToken F S)
  list_by_status wanted reg = keep (λ t. wanted t.status) (values reg)

  unfoldable pub list_recent : ℕ → Registry F S → List (LaunchpadToken F S)
  list_recent since reg =
      keep (λ t. leb since t.discovered_at || at_or_after t.launched_at since) (values reg)

  -- `remove`
  unfoldable pub remove : String → Registry F S → Registry F S
  remove key [] = []
  remove key ((k, t) ∷ reg) = if k == key then reg else (k, t) ∷ remove key reg

module _ {F S : Type 0} ⦃n : FloatOps F⦄ where
  abbrev pub merge_score : LaunchpadToken F S → LaunchpadToken F S → Option F → LaunchpadToken F S
  merge_score old new none = old
  merge_score old new (some x) = record old {
    score_delta =
        if present old.current_score || present old.initial_score
        then some (x - score_or_zero (score_or old.current_score old.initial_score))
        else none;
    current_score = some x;
    last_score_at = update old.last_score_at new.last_score_at;
  }

  -- What a token that is known already takes over from a new record of it.
  unfoldable pub merge : LaunchpadToken F S → LaunchpadToken F S → LaunchpadToken F S
  unfolding merge_meta
  merge old new =
      let scored = merge_score old new new.current_score in
      record scored {
        launchpad = known_or old.launchpad new.launchpad;
        launchpad_contract = known_or old.launchpad_contract new.launchpad_contract;
        launch_event = known_or old.launch_event new.launch_event;
        launch_tx_hash = known_or old.launch_tx_hash new.launch_tx_hash;
        creator_address = known_or old.creator_address new.creator_address;
        launched_at = known_or old.launched_at new.launched_at;
        symbol = known_or old.symbol new.symbol;
        name = known_or old.name new.name;
        status = if is_discovered new.status then old.status else new.status;
        priority = if new.priority == "" then old.priority else new.priority;
        meta = merge_meta old.meta new.meta;
      }

  abbrev pub stored_as : LaunchpadToken F S → Option (LaunchpadToken F S) → LaunchpadToken F S
  stored_as t none = t
  stored_as t (some old) = merge old t

  -- `upsert` of a token that is another object than the one in the registry; that very object is
  -- stored as it is (`store_again`).
  unfoldable pub upsert : LaunchpadToken F S → Registry F S → Registry F S
  unfolding merge
  upsert t reg = put (token_key t) (stored_as t (get (token_key t) reg)) reg

  unfoldable pub store_again : LaunchpadToken F S → Registry F S → Registry F S
  store_again t reg = put (token_key t) t reg
