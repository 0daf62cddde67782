-- ===== src/Tests/Exiting.antt =====
-- The theorems on the exit rules, at concrete data.
use meme_agent.Base.{true, false, ◌≡◌, refl, none, some, List, get}
use meme_agent.Core.Errors.{ok}
use meme_agent.Core.Outcomes.{Ensures}
use meme_agent.Float.{num}
use meme_agent.Float.Fixed.{Fixed, fixed_ops, Fixed-IsOrdered}
use meme_agent.Portfolio.Position.{Position}
use meme_agent.Portfolio.Exits.{ExitDecision, improving, evaluate}
use meme_agent.Portfolio.Exits.Plans.{IsPlan, evaluate-IsPlan}
use meme_agent.Portfolio.Exits.Safety.{evaluate_total}
use meme_agent.Tests.Data.{noon, fallen, market, exit_config}

-- Up by 75%, so that the first tier takes a profit.
abbrev risen : Position Fixed
risen = record fallen { last_price = num 7; entry_price = num 4; peak_price = num 7 }

evaluate-IsPlan_example :
    Ensures (IsPlan risen) (evaluate exit_config risen noon (some market) false false none)
evaluate-IsPlan_example =
    evaluate-IsPlan Fixed-IsOrdered exit_config risen noon (some market) false false none

market_improves : improving market ≡ true
unfolding improving get
market_improves = refl

evaluate_total_example :
    (ds : List (ExitDecision Fixed)) × (evaluate exit_config risen noon
        (some market)
        false
        false
        none
      ≡ ok ds)
evaluate_total_example =
    evaluate_total Fixed-IsOrdered exit_config risen noon (some market) false false none refl refl
