-- ===== src/Execution/Paper/Branches.antt =====
-- Postconditions of calls of the paper engine, branch by branch.
use text.Mathlib.TextPositions.{eq_refl}
use meme_agent.Base.{
  String, Bool, true, false, ◌≡◌, refl, ◌⊎◌, inl, inr, none, some, get, get-put, if◌then◌else◌,
  arith,
}
use meme_agent.Core.Errors.{Error, Result, ok, raised}
use meme_agent.Core.Types.{Side, is_fill}
use meme_agent.Domain.Trade.{TradeRequest, ApprovedTrade, ExecutionResult}
use meme_agent.Execution.Paper.{PaperConfig, check, PaperState, Outcome, on, once, record_result}

module _ {F : Type 0} (P : Outcome F → Type 0) where
  pub holds-on :
      {A : Type 0} (m : Result A) (s : PaperState F) (f : A → Outcome F)
      → ((e : _) → P (s, raised e))
      → ((a : A) → m ≡ ok a → P (f a))
      → P (on m s f)
  holds-on (ok a) s f h k = k a refl
  holds-on (raised e) s f h k = h e

  pub holds-if :
      (b : Bool) (x y : Outcome F) → (b ≡ true → P x) → (b ≡ false → P y) → P (if b then x else y)
  holds-if true x y h k = h refl
  holds-if false x y h k = k refl

module _ {F : Type 0} where
  pub once-new :
      (s : PaperState F) (key : String) (out : Outcome F)
      → get key s.results ≡ none
      → once s key out ≡ out
  unfolding once
  once-new s key out h = rw h

  pub once-stored :
      (s : PaperState F) (key : String) (r : ExecutionResult F) (out : Outcome F)
      → get key s.results ≡ some r
      → once s key out ≡ (s, ok r)
  unfolding once
  once-stored s key r out h = rw h

  -- The results after a fill have it under its key.
  pub record_result-stored :
      (s : PaperState F) (r : ExecutionResult F)
      → is_fill r.status ≡ true
      → get r.idempotency_key (record_result s r).0.results ≡ some r
  unfolding record_result
  record_result-stored s r h =
      ground
        (arith, get-put r.idempotency_key r.idempotency_key r s.results, eq_refl r.idempotency_key)

  pub record_result-failed :
      (s : PaperState F) (r : ExecutionResult F)
      → is_fill r.status ≡ false
      → (record_result s r).0.results ≡ s.results
  unfolding record_result
  record_result-failed s r h = ground arith

  pub check-request :
      (cfg : PaperConfig F) (t : ApprovedTrade F) (side : Side) (req : TradeRequest F)
      → check cfg t side ≡ ok req
      → t.request ≡ req
  unfolding check
  check-request cfg t side req h = ground arith

-- A call returns or raises.
pub Result-cases :
    {A : Type 0} (m : Result A) → ((a : A) × (m ≡ ok a)) ⊎ ((e : Error) × (m ≡ raised e))
Result-cases (ok a) = inl (a, refl)
Result-cases (raised e) = inr (e, refl)
