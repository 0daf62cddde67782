-- ===== src/MarketData/Failover.antt =====
-- A market snapshot is returned exactly when a provider that may be asked answers.
use meme_agent.Base.{
  String, Bool, true, false, ◌&&◌, ◌||◌, ◌≡◌, ◌≢◌, refl, ap, ◌∙◌, Option, none, some, List, [], ◌∷◌,
  any, All, Bool-cases, inl, inr, arith,
}
use meme_agent.Core.Errors.{Result, ok, raised, data_unavailable}
use meme_agent.Core.Outcomes.{Returns, Returns-bind, value_of}
use meme_agent.Float.{FloatOps, IsOrdered}
use meme_agent.Domain.Market.{MarketState, present}
use meme_agent.Portfolio.Exits.Safety.{buy_sell_volume_ratio-Returns}
use meme_agent.MarketData.Health.{RegistryConfig, RegistryHealth, available}
use meme_agent.MarketData.Circuit.{other-fail_call, other-ok_call, available-same}
use meme_agent.MarketData.Merge.{Answer, core_fields, is_complete}
use meme_agent.MarketData.Registry.{
  Reply, answered, failed, Call, RegistryState, Gathered, is_done, gathered_by, ask_state, gather,
  conclude, answer_of, get_market_state,
}

-- A result that has a value.
abbrev pub is_ok : {A : Type 0} → Result A → Bool
is_ok (ok a) = true
is_ok (raised e) = false

module _ {F : Type 0} where
  -- The calls are of providers with different names.
  abbrev pub Distinct : List (Call F (Answer F)) → Type 0
  Distinct [] = Unit
  Distinct (c ∷ cs) = All (λ d. c.name ≢ d.name) cs × Distinct cs

  abbrev pub is_answer : Reply (Answer F) → Bool
  is_answer (answered a) = true
  is_answer (failed error) = false

module _ {F : Type 0} ⦃n : FloatOps F⦄ (cfg : RegistryConfig F) where
  -- The provider may be asked, and answers.
  abbrev pub answers : RegistryHealth F → Call F (Answer F) → Bool
  answers r c = available cfg r c.name c.checked_at && is_answer c.reply

  other-gathered_by :
      (g : Gathered F) (name other : String) (now : F) (reply : Reply (Answer F))
      → name ≢ other
      → (gathered_by cfg g name now reply).circuits.health other ≡ g.circuits.health other
  other-gathered_by g name other now (answered a) h = other-ok_call cfg g.circuits name other now h
  other-gathered_by g name other now (failed error) h =
      other-fail_call cfg g.circuits name other error now h

  other-ask_state :
      (g : Gathered F) (c : Call F (Answer F)) (other : String)
      → c.name ≢ other
      → (ask_state cfg g c).circuits.health other ≡ g.circuits.health other
  unfolding ask_state
  other-ask_state g c other h = elim (Bool-cases (available cfg g.circuits c.name c.checked_at)) [
    | inl asked ↦ rw asked (other-gathered_by g c.name other c.ended_at c.reply h)
    | inr skipped ↦ rw skipped refl
  ]

  answers-ask_state :
      (g : Gathered F) (c : Call F (Answer F)) (cs : List (Call F (Answer F)))
      → All (λ d. c.name ≢ d.name) cs
      → any (answers (ask_state cfg g c).circuits) cs ≡ any (answers g.circuits) cs
  answers-ask_state g c [] h = refl
  answers-ask_state g c (d ∷ cs) (apart, h) =
      rw
        (
          available-same cfg (ask_state cfg g c).circuits g.circuits d.name d.checked_at
              (ap (λ h. h.opened_until) (other-ask_state g c d.name apart)),
          answers-ask_state g c cs h,
        )
        refl

  merged-gathered_by :
      (g : Gathered F) (name : String) (now : F) (reply : Reply (Answer F))
      → present (gathered_by cfg g name now reply).merged ≡ (present g.merged || is_answer reply)
  merged-gathered_by g name now (answered a) = ground arith
  merged-gathered_by g name now (failed error) = ground arith

  merged-ask_state :
      (g : Gathered F) (c : Call F (Answer F))
      → present (ask_state cfg g c).merged ≡ (present g.merged || answers g.circuits c)
  unfolding ask_state
  merged-ask_state g c = ground (arith, merged-gathered_by g c.name c.ended_at c.reply)

  module _ (order : IsOrdered F) where
    is_complete-Returns : (m : MarketState F) → Returns (is_complete m)
    unfolding is_complete
    is_complete-Returns m = elim (Bool-cases (core_fields m)) [
      | inl full ↦ rw full (Returns-bind _ _ (buy_sell_volume_ratio-Returns order m) (λ r. tt))
      | inr missing ↦ rw missing tt
    ]

    is_done-Returns : (o : Option (MarketState F)) → Returns (is_done cfg o)
    unfolding is_done
    is_done-Returns none = tt
    is_done-Returns (some m) = is_complete-Returns m

    present_if_done : (o : Option (MarketState F)) → is_done cfg o ≡ ok true → present o ≡ true
    unfolding is_done
    present_if_done none h = cc
    present_if_done (some m) h = refl

    -- Whether a snapshot has been gathered, and that the loop does not raise.
    gather-answers :
        (cs : List (Call F (Answer F))) (g : Gathered F)
        → Distinct cs
        → (present (gather cfg cs g).0.merged ≡ (present g.merged || any (answers g.circuits) cs))
          × ((gather cfg cs g).1 ≡ ok tt)
    unfolding gather
    gather-answers [] g h = (ground arith, refl)
    gather-answers (c ∷ cs) g (apart, h) =
        let (stop, e) = value_of (is_done cfg g.merged) (is_done-Returns g.merged) in
        elim (Bool-cases stop) [
          | inl ended ↦
              rw (gather, e, ended, present_if_done g.merged (e ∙ ap ok ended)) (refl, refl)
          | inr going ↦
              let (more, quiet) = gather-answers cs (ask_state cfg g c) h in
              rw (gather, e, going)
                (more ∙ ground (arith, merged-ask_state g c, answers-ask_state g c cs apart), quiet)
        ]

    answer_of-ok :
        (st : RegistryState F) (token : String) (o : Gathered F × Result (Unit {0}))
        → o.1 ≡ ok tt
        → answer_of cfg st token o ≡ conclude cfg st token o.0 o.0.merged
    answer_of-ok st token (g, ok _) h = refl
    answer_of-ok st token (g, raised e) h = cc

    is_ok-conclude :
        (st : RegistryState F) (token : String) (g : Gathered F) (o : Option (MarketState F))
        → (is_ok (conclude cfg st token g o).1 ≡ present o)
          × (present o ≡ false → (conclude cfg st token g o).1 ≡ raised data_unavailable)
    is_ok-conclude st token g none = (refl, λ h. refl)
    is_ok-conclude st token g (some m) = (refl, λ h. cc)

    -- For providers with different names, a snapshot is returned exactly when one of them, whose
    -- circuit is closed when it is reached, answers; otherwise the call raises DataUnavailable.
    pub get_market_state-answers :
        (st : RegistryState F) (token : String) (calls : List (Call F (Answer F)))
        → Distinct calls
        → (is_ok (get_market_state cfg st token calls).1 ≡ any (answers st.circuits) calls)
          × (any (answers st.circuits) calls ≡ false
              → (get_market_state cfg st token calls).1 ≡ raised data_unavailable)
    unfolding get_market_state
    get_market_state-answers st token calls h =
        let g : Gathered F = record { circuits = st.circuits; merged = none; sources = [] } in
        let (found, quiet) = gather-answers calls g h in
        let done = answer_of-ok st token (gather cfg calls g) quiet in
        let (yes_ok, no_ok) =
          is_ok-conclude st token (gather cfg calls g).0 (gather cfg calls g).0.merged in
        (
          ap (λ o. is_ok o.1) done ∙ yes_ok ∙ found,
          λ nobody. ap (λ o. o.1) done ∙ no_ok (found ∙ nobody),
        )
