-- ===== src/Execution/Live/Approving.antt =====
-- `_approve_token_to_uniswap_proxy` of backend/app/execution/live.py, and the reading of a builder's
-- message that asks for it. The proxies' addresses are those of chains/arc/deployments.py and network.py.
use Prim.Native.String.{String, len, find}
use Prim.Native.String
use Prim.Native.Nat.{◌-◌}
use text.Mathlib.Text.{starts_with}
use meme_agent.Base.{
  contains, ℕ, zero, suc, ◌==◌, Bool, ◌&&◌, ◌||◌, Option, none, some, List, [], ◌∷◌, ◌++◌, lower,
  nat_eq, if◌then◌else◌,
}
use meme_agent.Core.Errors.{Result, ok, raised, integration_not_verified, require, ◌>>=◌}
use meme_agent.Core.Types.{is_sell}
use meme_agent.Float.{FloatOps, num}
use meme_agent.Domain.Trade.{TradeRequest, UnsignedTransaction}
use meme_agent.Wallets.Submission.{submit}
use meme_agent.Execution.Live.{World, TxReceipt, LiveState, find_hash}

unfoldable pub asks_approval : String → Bool
asks_approval msg = contains msg "NEEDS_PROXY_APPROVE" || contains msg "NEEDS_PERMIT2_APPROVE"

-- `text.replace(" ", "").split(":")`, with the part read so far.
unfoldable pub parts_from : String → String → List String
parts_from part String.[] = part ∷ []
parts_from part (String.◌∷◌ c s) =
    let longer = parts_from (String.◌++◌ part (String.◌∷◌ c String.[])) s in
    let fresh = parts_from "" s in
    let rest = parts_from part s in
    if String.◌∷◌ c String.[] == " "
    then rest
    else if String.◌∷◌ c String.[] == ":"
    then part ∷ fresh
    else longer

abbrev pub is_address : String → Bool
is_address s = starts_with s "0x" && nat_eq (String.count s) 42

abbrev pub first_address : List String → Option String
first_address [] = none
first_address (s ∷ ss) = if is_address s then some s else first_address ss

unfoldable pub spender_of : String → Option String
unfolding parts_from
spender_of msg = first_address (parts_from "" msg)

abbrev pub usdc_erc20_address : String
usdc_erc20_address = "0x3600000000000000000000000000000000000000"

abbrev pub arc_uniswap_proxy : String
arc_uniswap_proxy = "0x0000000085E102724e78eCd2F45DC9cA239Affad"

abbrev pub arc_uniswap_proxy_legacy : String
arc_uniswap_proxy_legacy = "0x02E5be68D46DAc0B524905bfF209cf47EE6dB2a9"

-- One spender that the message names, else both known proxies.
unfoldable pub spenders_of : Option String → List String
spenders_of none = lower arc_uniswap_proxy_legacy ∷ lower arc_uniswap_proxy ∷ []
spenders_of (some s) =
    if is_address s
    then lower s ∷ []
    else lower arc_uniswap_proxy_legacy ∷ lower arc_uniswap_proxy ∷ []

-- `text * count`
unfoldable pub times_text : ℕ → String → String
times_text zero text = ""
times_text (suc k) text = String.◌++◌ text (times_text k text)

abbrev pub remove_0x : String → String
remove_0x s = if starts_with s "0x" then String.slice s 2 (len s) else s

-- `s.rjust(width, "0")`
unfoldable pub rjust : ℕ → String → String
unfolding times_text
rjust width s = String.◌++◌ (times_text (width - String.count s) "0") s

unfoldable pub approve_data : String → String
unfolding rjust times_text
approve_data spender =
    String.◌++◌ "0x095ea7b3" (String.◌++◌ (rjust 64 (remove_0x spender)) (times_text 64 "f"))

abbrev pub still : Bool → String → Result (Unit {0})
still test why = require test (integration_not_verified why)

abbrev pub settled_receipt : Option TxReceipt → Result (Unit {0})
settled_receipt none = raised (integration_not_verified "approve not confirmed in time")
settled_receipt (some r) = still (nat_eq r.status 1) "approve reverted"

abbrev pub some_hash : Option String → Result String
some_hash none = raised (integration_not_verified "approve submitted but no tx hash yet")
some_hash (some h) = ok h

module _ {F : Type 0} where
  -- USDC for a purchase, the token for a sale.
  abbrev pub approved_token : TradeRequest F → String
  approved_token req = lower (if is_sell req.side then req.token_address else usdc_erc20_address)

module _ {F : Type 0} ⦃n : FloatOps F⦄ where
  unfoldable pub approve_tx : World F → TradeRequest F → String → UnsignedTransaction F
  approve_tx w req spender = record {
    chain = if req.chain == "" then "arc" else req.chain;
    chain_id = w.chain_id;
    to = approved_token req;
    calldata = approve_data spender;
    token_address = approved_token req;
    amount_usdc = num 0;
    slippage_pct = req.max_slippage_pct;
    built_by = "deterministic-adapter";
    function_signature = some "approve(address,uint256)";
    purpose = some "erc20_approve";
  }

  -- Submit one approval and wait for it.
  unfoldable pub confirm_approval : World F → UnsignedTransaction F → Result (Unit {0})
  confirm_approval w tx = do
    sub ← submit w.wallet tx w.approved_at (some w.chain_id)
    found ← find_hash w sub
    h ← some_hash found
    receipt ← w.wait_for_receipt h
    settled_receipt receipt

  unfoldable pub approve_each :
      World F → TradeRequest F → List String → LiveState F → LiveState F × Result (Unit {0})
  unfolding approve_tx confirm_approval
  approve_each w req [] s = (s, ok tt)
  approve_each w req (spender ∷ spenders) s =
      let tx = approve_tx w req spender in
      let asked = record s { approvals = s.approvals ++ tx ∷ [] } in
      let rest = approve_each w req spenders asked in
      elim (confirm_approval w tx) [ raised e ↦ (asked, raised e) | ok done ↦ rest ]
