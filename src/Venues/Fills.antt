-- ===== src/Venues/Fills.antt =====
-- backend/app/venues/fills.py: the fill of a swap, from the transfers that its receipt records, or else
-- from the quote. Decoding a log is left out: a transfer comes with its amount, if that could be read.
pub mod Tally
pub mod Settled
use Prim.Native.Nat.{◌^◌}
use meme_agent.Base.{
  ℕ, String, ◌==◌, Bool, ◌||◌, Option, none, some, List, [], ◌∷◌, lower, if◌then◌else◌,
}
use meme_agent.Core.Types.{Side, buy, sell}
use meme_agent.Core.Errors.{Result, ok, raised, integration_not_verified, ◌>>=◌}
use meme_agent.Float.{FloatOps, ◌+◌, ◌*◌, ◌÷◌, gt, le, num, dec}
use meme_agent.Domain.Trade.{Quote}
use meme_agent.Execution.Live.{FillDetails}

-- `USDC_ERC20_ADDRESS` of backend/app/chains/arc/network.py, in lower case.
abbrev pub usdc_address : String
usdc_address = "0x3600000000000000000000000000000000000000"

-- A log with the topic of a transfer. The addresses are 40 hexadecimal digits, without a prefix.
pub record Transfer : Type 0 where
  pub frm : String
  pub to : String
  pub raw : Option ℕ
  pub address : String

-- What the wallet received and sent, of USDC and of the token.
pub record Moved (F : Type 0) : Type 0 where
  pub usdc_in : F
  pub usdc_out : F
  pub tok_in : F
  pub tok_out : F

module _ {F : Type 0} ⦃n : FloatOps F⦄ where
  abbrev pub nothing_moved : Moved F
  nothing_moved = record { usdc_in = num 0; usdc_out = num 0; tok_in = num 0; tok_out = num 0 }

  abbrev pub amount_if : Bool → F → F
  amount_if b amount = if b then amount else num 0

  unfoldable pub move_amount : String → String → ℕ → Transfer → ℕ → Moved F → Moved F
  move_amount wallet token token_decimals log raw m =
      if log.address == usdc_address
      then record m {
        usdc_in = m.usdc_in + amount_if (log.to == wallet) (n.ratio raw (10 ^ 6));
        usdc_out = m.usdc_out + amount_if (log.frm == wallet) (n.ratio raw (10 ^ 6));
      }
      else if log.address == token
      then record m {
        tok_in = m.tok_in + amount_if (log.to == wallet) (n.ratio raw (10 ^ token_decimals));
        tok_out = m.tok_out + amount_if (log.frm == wallet) (n.ratio raw (10 ^ token_decimals));
      }
      else m

  -- A log whose amount cannot be read is skipped.
  unfoldable pub move_all : String → String → ℕ → List Transfer → Moved F → Moved F
  move_all wallet token token_decimals [] m = m
  move_all wallet token token_decimals (log ∷ logs) m =
      move_all wallet token token_decimals logs
        (elim log.raw [ none ↦ m | some raw ↦ move_amount wallet token token_decimals log raw m ])

  -- Token quantity and USDC amount, as the chain and as the quote has them.
  abbrev pub moved_amounts : Side → Moved F → F × F
  moved_amounts buy m = (m.tok_in, m.usdc_out)
  moved_amounts sell m = (m.tok_out, m.usdc_in)

  abbrev pub quoted_amounts : Side → Quote F → F × F
  quoted_amounts buy q = (q.expected_out, q.amount_in)
  quoted_amounts sell q = (q.amount_in, q.expected_out)

  abbrev pub is_unsettled : F × F → Bool
  is_unsettled (qty, usdc_amt) = le qty (num 0) || le usdc_amt (num 0)

  abbrev pub settled_amounts : Quote F → Moved F → F × F
  settled_amounts q m =
      if is_unsettled (moved_amounts q.side m)
      then quoted_amounts q.side q
      else moved_amounts q.side m

  abbrev pub fill_of : Quote F → F × F → Result (FillDetails F)
  fill_of q (qty, usdc_amt) =
      if is_unsettled (qty, usdc_amt)
      then raised (integration_not_verified "fill parsing")
      else usdc_amt ÷ qty >>= λ avg_price. ok (record {
        filled_quantity = qty;
        avg_price = avg_price;
        fee_usdc = if gt q.fee_usdc (num 0) then q.fee_usdc else usdc_amt * dec 3 3;
      })

  -- `wallet` is the address without its prefix, in lower case.
  unfoldable pub parse_transfer_fill : String → List Transfer → Quote F → ℕ → Result (FillDetails F)
  unfolding move_all
  parse_transfer_fill wallet logs q token_decimals = fill_of q (
      settled_amounts q (move_all wallet (lower q.token_address) token_decimals logs nothing_moved))
