-- ===== src/Discovery/Monitoring/Lifecycle.antt =====
-- How looks move a token through its life: failures kill it, and a lost momentum ends the monitoring.
use Prim.Native.Nat.{◌+◌ as ◌⊹◌, ◌<◌}
use meme_agent.Base.{
  ℕ, suc, ◌≤◌, true, false, ◌≡◌, refl, ◌∙◌, none, some, List, [], ◌∷◌, length, arith,
}
use meme_agent.Core.Errors.{Error, ok, raised}
use meme_agent.Float.{FloatOps, ◌-◌, le, ge}
use meme_agent.Discovery.Registry.{rejected, lost_momentum, LaunchpadToken, score_or}
use meme_agent.Discovery.Monitoring.{
  MonitoringConfig, monitored, failures, is_due, failed_look, refreshed, rescored, look,
}

module _ {F S : Type 0} ⦃n : FloatOps F⦄ where
  -- Looks one after the other whose fetch raises, at a time each.
  abbrev pub fail_all :
      MonitoringConfig F → List (ℕ × Error) → LaunchpadToken F S → LaunchpadToken F S
  fail_all c [] t = t
  fail_all c ((now, e) ∷ rest) t = fail_all c rest (look c now (raised e) none t).0

  -- Rejected, with the priority "DEAD": no cycle looks at it, whatever the time and the settings are.
  pub record IsDead (t : LaunchpadToken F S) : Type 0 where
    pub status_rejected : t.status ≡ rejected
    pub priority_dead : t.priority ≡ "DEAD"
    pub never_due : (c : MonitoringConfig F) (now : ℕ) → is_due c now t ≡ false

  failures-failed_look :
      (c : MonitoringConfig F) (now : ℕ) (t : LaunchpadToken F S)
      → failures (failed_look c now t).meta.monitor_failures ≡ failures t.meta.monitor_failures ⊹ 1
  unfolding failed_look
  failures-failed_look c now t = ground arith

  failed_look-alive :
      (c : MonitoringConfig F) (now : ℕ) (t : LaunchpadToken F S)
      → failures t.meta.monitor_failures ⊹ 1 < c.max_consecutive_failures
      → ((failed_look c now t).status ≡ t.status) × ((failed_look c now t).priority ≡ t.priority)
  unfolding failed_look
  failed_look-alive c now t h = ground arith

  failed_look-ends :
      (c : MonitoringConfig F) (now : ℕ) (t : LaunchpadToken F S)
      → c.max_consecutive_failures ≤ failures t.meta.monitor_failures ⊹ 1
      → ((failed_look c now t).status ≡ rejected) × ((failed_look c now t).priority ≡ "DEAD")
  unfolding failed_look
  failed_look-ends c now t h = ground arith

  not_monitored :
      (c : MonitoringConfig F) (now : ℕ) (t : LaunchpadToken F S)
      → monitored t.status ≡ false
      → is_due c now t ≡ false
  unfolding is_due
  not_monitored c now t h = ground arith

  rejected_not_due :
      (c : MonitoringConfig F) (now : ℕ) (t : LaunchpadToken F S)
      → t.status ≡ rejected
      → is_due c now t ≡ false
  rejected_not_due c now t h = not_monitored c now t (rw h refl)

  failed_look-IsDead :
      (c : MonitoringConfig F) (now : ℕ) (t : LaunchpadToken F S)
      → c.max_consecutive_failures ≤ failures t.meta.monitor_failures ⊹ 1
      → IsDead (failed_look c now t)
  failed_look-IsDead c now t h =
      let (r, p) = failed_look-ends c now t h in
      record {
        status_rejected = r;
        priority_dead = p;
        never_due = λ c' now'. rejected_not_due c' now' (failed_look c now t) r;
      }

  -- A token whose fetches fail in a row is untouched in status and priority while its failures, with
  -- those before, stay below the limit, and dead once they reach it: rejected, and never due again.
  pub fail_all_lem :
      (c : MonitoringConfig F) (now : ℕ) (e : Error) (rest : List (ℕ × Error))
      (t : LaunchpadToken F S)
      → let after = fail_all c ((now, e) ∷ rest) t in
        let fails = failures t.meta.monitor_failures ⊹ suc (length rest) in
        (fails < c.max_consecutive_failures
          → (after.status ≡ t.status) × (after.priority ≡ t.priority))
        × (c.max_consecutive_failures ≤ fails → IsDead after)
  unfolding look
  fail_all_lem c now e [] t =
      (λ h. failed_look-alive c now t (omega arith), λ h. failed_look-IsDead c now t (omega arith))
  fail_all_lem c now e ((later, e') ∷ rest) t =
      let t' = failed_look c now t in
      let count = failures-failed_look c now t in
      let (alive, dead) = fail_all_lem c later e' rest t' in
      (
        λ h.
            let (s, p) = alive (omega (arith, count)) in
            let (s', p') = failed_look-alive c now t (omega arith) in (s ∙ s', p ∙ p'),
        λ h. dead (omega (arith, count)),
      )

  -- A score that falls by the decline threshold, and does not rise by the other one, puts a token on
  -- the cold priority with a status that is not monitored: no cycle looks at it again.
  look-declined :
      (c : MonitoringConfig F) (now : ℕ) (snap : S) (x old : F) (t : LaunchpadToken F S)
      → score_or t.current_score t.initial_score ≡ some old
      → ge (x - old) c.score_improve_threshold ≡ false
      → le (x - old) c.score_decline_threshold ≡ true
      → let after = (look c now (ok snap) (some (ok x)) t).0 in
        (after.status ≡ lost_momentum)
        × (after.priority ≡ "COLD")
        × ((c' : MonitoringConfig F) (now' : ℕ) → is_due c' now' after ≡ false)
  unfolding look rescored refreshed
  look-declined c now snap x old t known not_up down =
      rw (known, not_up, down) (refl, refl, λ c' now'. not_monitored c' now' _ refl)
