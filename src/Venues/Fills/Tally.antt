-- ===== src/Venues/Fills/Tally.antt =====
-- What a wallet received and sent, added up over the transfers of a receipt.
use Prim.Native.Nat.{◌^◌}
use meme_agent.Base.{
  ℕ, String, ◌==◌, Bool, not, ◌&&◌, ◌≡◌, refl, Option, none, some, List, [], ◌∷◌, Bool-cases, inl,
  inr, if◌then◌else◌,
}
use meme_agent.Float.{FloatOps, num, sum_from}
use meme_agent.Venues.Fills.{usdc_address, Transfer, Moved, move_amount, move_all}

abbrev pub is_usdc : Transfer → Bool
is_usdc log = log.address == usdc_address

-- A transfer of the token. USDC is not the token, whatever the quote says.
abbrev pub is_token : String → Transfer → Bool
is_token token log = not (is_usdc log) && (log.address == token)

abbrev pub arrives : String → Transfer → Bool
arrives wallet log = log.to == wallet

abbrev pub leaves : String → Transfer → Bool
leaves wallet log = log.frm == wallet

module _ {F : Type 0} ⦃n : FloatOps F⦄ where
  -- The amounts of an asset that is moved one way, and 0 where it is moved otherwise. A transfer that
  -- cannot be read counts for nothing.
  abbrev pub amounts : (Transfer → Bool) → (Transfer → Bool) → ℕ → List Transfer → List F
  amounts asset way unit [] = []
  amounts asset way unit (log ∷ logs) =
      let rest = amounts asset way unit logs in
      elim log.raw [
        | none ↦ rest
        | some raw ↦
            if asset log then (if way log then n.ratio raw unit else num 0) ∷ rest else rest
      ]

  module _ (wallet token : String) (decimals : ℕ) where
    -- The sums that are kept, continued over the transfers.
    pub record IsTally (logs : List Transfer) (before after : Moved F) : Type 0 where
      pub usdc_in :
          after.usdc_in ≡ sum_from before.usdc_in (amounts is_usdc (arrives wallet) (10 ^ 6) logs)
      pub usdc_out :
          after.usdc_out ≡ sum_from before.usdc_out (amounts is_usdc (leaves wallet) (10 ^ 6) logs)
      pub tok_in :
          after.tok_in
          ≡ sum_from before.tok_in (amounts (is_token token) (arrives wallet) (10 ^ decimals) logs)
      pub tok_out :
          after.tok_out
          ≡ sum_from before.tok_out (amounts (is_token token) (leaves wallet) (10 ^ decimals) logs)

    one-IsTally :
        (log : Transfer) (logs : List Transfer) (raw : ℕ) (m after : Moved F)
        → log.raw ≡ some raw
        → IsTally logs (move_amount wallet token decimals log raw m) after
        → IsTally (log ∷ logs) m after
    unfolding move_amount
    one-IsTally log logs raw m after e h = elim (Bool-cases (log.address == usdc_address)) [
      | inl usdc ↦
          let k = rw usdc at h in
          record {
            usdc_in = rw (e, usdc) k.usdc_in;
            usdc_out = rw (e, usdc) k.usdc_out;
            tok_in = rw (e, usdc) k.tok_in;
            tok_out = rw (e, usdc) k.tok_out;
          }
      | inr other ↦ elim (Bool-cases (log.address == token)) [
        | inl same ↦
            let k = rw (other, same) at h in
            record {
              usdc_in = rw (e, other) k.usdc_in;
              usdc_out = rw (e, other) k.usdc_out;
              tok_in = rw (e, other, same) k.tok_in;
              tok_out = rw (e, other, same) k.tok_out;
            }
        | inr unknown ↦
            let k = rw (other, unknown) at h in
            record {
              usdc_in = rw (e, other) k.usdc_in;
              usdc_out = rw (e, other) k.usdc_out;
              tok_in = rw (e, other, unknown) k.tok_in;
              tok_out = rw (e, other, unknown) k.tok_out;
            }
      ]
    ]

    skipped-IsTally :
        (log : Transfer) (logs : List Transfer) (m after : Moved F)
        → log.raw ≡ none
        → IsTally logs m after
        → IsTally (log ∷ logs) m after
    skipped-IsTally log logs m after e h = record {
      usdc_in = rw e h.usdc_in;
      usdc_out = rw e h.usdc_out;
      tok_in = rw e h.tok_in;
      tok_out = rw e h.tok_out;
    }

    step-IsTally :
        (log : Transfer) (logs : List Transfer) (m after : Moved F) (read : Option ℕ)
        → log.raw ≡ read
        → IsTally logs
            (elim read [ none ↦ m | some raw ↦ move_amount wallet token decimals log raw m ])
            after
        → IsTally (log ∷ logs) m after
    step-IsTally log logs m after none e h = skipped-IsTally log logs m after e h
    step-IsTally log logs m after (some raw) e h = one-IsTally log logs raw m after e h

    pub move_all-IsTally :
        (logs : List Transfer) (m : Moved F)
        → IsTally logs m (move_all wallet token decimals logs m)
    unfolding move_all
    move_all-IsTally [] m = record {
      usdc_in = refl;
      usdc_out = refl;
      tok_in = refl;
      tok_out = refl;
    }
    move_all-IsTally (log ∷ logs) m =
        step-IsTally log logs m _ log.raw refl (move_all-IsTally logs _)
