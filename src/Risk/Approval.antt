-- ===== src/Risk/Approval.antt =====
-- `TradeApprover` of backend/app/risk/approval.py. The JSON text of a request (pydantic) and HMAC-SHA256
-- are the operations of a `Signer`, which nothing is assumed of.
use meme_agent.Base.{String, ◌==◌, eq_iff, Bool, true, ◌&&◌, ◌≡◌, ltb, arith, if◌then◌else◌}
use text.Mathlib.TextPositions.{eq_refl}
use Prim.Native.String
use meme_agent.Core.Errors.{Result, ok, raised, approval_error, value_error}
use meme_agent.Core.Types.{approve, is_approve}
use meme_agent.Domain.Trade.{TradeRequest, ApprovedTrade}
use meme_agent.Risk.Model.{RiskAssessment}

pub record Signer (F : Type 0) : Type 0 where
  pub model_dump_json : TradeRequest F → String
  pub hmac_hex : String → String → String

-- The constructor, which keeps the secret as the key.
unfoldable pub new_approver : String → Result String
new_approver secret =
    if ltb (String.len secret) 16
    then raised (value_error "approval secret too short")
    else ok secret

module _ {F : Type 0} (signer : Signer F) (key : String) where
  unfoldable pub sig : TradeRequest F → String → String
  sig req assessment_id =
      signer.hmac_hex key (String.◌++◌ (signer.model_dump_json req) (String.◌++◌ "|" assessment_id))

  abbrev signed : TradeRequest F → String → ApprovedTrade F
  signed req assessment_id = record {
    request = req;
    assessment_id = assessment_id;
    decision = approve;
    signature = sig req assessment_id;
  }

  -- `approve`; the id of the assessment is drawn when it is made.
  unfoldable pub approve_trade :
      TradeRequest F → String → RiskAssessment F → Result (ApprovedTrade F)
  approve_trade req assessment_id a =
      if is_approve a.decision then ok (signed req assessment_id) else raised approval_error

  unfoldable pub approve_exit : TradeRequest F → ApprovedTrade F
  approve_exit req = signed req "EXIT"

  unfoldable pub verify : ApprovedTrade F → Bool
  verify t = is_approve t.decision && (t.signature == sig t.request t.assessment_id)

  -- What `approve` returns is for the request it was given, on an assessment that approves, and it
  -- verifies under the same key; exits verify too.
  pub approve_trade-verify :
      (req : TradeRequest F) (assessment_id : String) (a : RiskAssessment F) (t : ApprovedTrade F)
      → approve_trade req assessment_id a ≡ ok t
      → (is_approve a.decision ≡ true)
        × (t.request ≡ req)
        × (verify t ≡ true)
        × (verify (approve_exit req) ≡ true)
  unfolding approve_trade approve_exit verify
  approve_trade-verify req assessment_id a t h =
      ground (arith, eq_refl (sig req assessment_id), eq_refl (sig req "EXIT"))

  -- A verified trade carries exactly the signature of its own request and assessment id.
  pub verify-sig :
      (t : ApprovedTrade F) → verify t ≡ true → t.signature ≡ sig t.request t.assessment_id
  unfolding verify
  verify-sig t h = ground (arith, eq_iff t.signature (sig t.request t.assessment_id))
