-- ===== src/Risk/ScorerLaws.antt =====
-- The bounds of the risk score.
use packet_dpi_engine.Base.{
  ℕ, ◌<◌, ◌≤◌, Bool, true, false, List, [], ◌∷◌, length, length-append, min, arith,
}
use packet_dpi_engine.Text.{Text}
use packet_dpi_engine.Dpi.Types.{L7Metadata}
use packet_dpi_engine.Rules.Types.{RuleAction, allow, block, alert, log}
use packet_dpi_engine.Threat.Types.{SecurityAlert}
use packet_dpi_engine.Risk.Types.{
  RiskLevel, no_risk, low_risk, medium_risk, high_risk, critical_risk, BehavioralMetrics,
}
use packet_dpi_engine.Risk.Scorer.{
  RiskScoringWeights, Tally, add_factor, add_if, severity_weight, add_alerts, add_policy, tally,
  level_of, calculate_score,
}

-- No more than five factors are named.
abbrev FewFactors : Tally → Type 0
FewFactors t = length t.factors ≤ 5

add_factor-FewFactors :
    (w : ℕ) (f : Text) (t : Tally) → FewFactors t → FewFactors (add_factor w f t)
unfolding add_factor
add_factor-FewFactors w f t h = ground (arith, h, length-append t.factors (f ∷ []))

add_if-FewFactors :
    (b : Bool) (w : ℕ) (f : Text) (t : Tally) → FewFactors t → FewFactors (add_if b w f t)
unfolding add_if
add_if-FewFactors true w f t h = add_factor-FewFactors w f t h
add_if-FewFactors false w f t h = h

add_alerts-FewFactors :
    (w : RiskScoringWeights) (alerts : List SecurityAlert) (t : Tally)
    → FewFactors t
    → FewFactors (add_alerts w alerts t)
unfolding add_alerts
add_alerts-FewFactors w [] t h = h
add_alerts-FewFactors w (a ∷ more) t h =
    add_alerts-FewFactors w more _ (add_factor-FewFactors (severity_weight w a.severity) _ t h)

add_policy-FewFactors :
    (w : RiskScoringWeights) (action : RuleAction) (t : Tally)
    → FewFactors t
    → FewFactors (add_policy w action t)
unfolding add_policy
add_policy-FewFactors w block t h = add_factor-FewFactors w.policy_blocked _ t h
add_policy-FewFactors w alert t h = add_factor-FewFactors w.policy_alert _ t h
add_policy-FewFactors w allow t h = h
add_policy-FewFactors w log t h = h

tally-FewFactors :
    (w : RiskScoringWeights) (m : BehavioralMetrics) (l7 : L7Metadata) (action : RuleAction)
    (alerts : List SecurityAlert) (port : ℕ)
    → FewFactors (tally w m l7 action alerts port)
unfolding tally
tally-FewFactors w m l7 action alerts port = add_if-FewFactors _ _ _ _ (
    add_if-FewFactors _ _ _ _ (
      add_if-FewFactors _ _ _ _ (
        add_if-FewFactors _ _ _ _
          (add_policy-FewFactors w action _ (add_alerts-FewFactors w alerts _ (omega arith))))))

-- The least score of a level.
abbrev pub floor_of : RiskLevel → ℕ
floor_of no_risk = 0
floor_of low_risk = 20
floor_of medium_risk = 40
floor_of high_risk = 60
floor_of critical_risk = 80

-- The score that starts the next level, or one more than the greatest.
abbrev pub ceiling_of : RiskLevel → ℕ
ceiling_of no_risk = 20
ceiling_of low_risk = 40
ceiling_of medium_risk = 60
ceiling_of high_risk = 80
ceiling_of critical_risk = 101

level_of_range : (n : ℕ) → n ≤ 100 → (floor_of (level_of n) ≤ n) × (n < ceiling_of (level_of n))
unfolding level_of
level_of_range n h = ground (arith, h)

-- Whatever the weights, the metrics, the verdict and the alerts, the score of a flow is at most 100,
-- its level is the one whose range holds the score - 0 to 19, 20 to 39, 40 to 59, 60 to 79 and 80 to
-- 100 - and at most five factors are named.
pub calculate_score_bounds :
    (w : RiskScoringWeights) (m : BehavioralMetrics) (l7 : L7Metadata) (action : RuleAction)
    (alerts : List SecurityAlert) (port : ℕ)
    → let s = calculate_score w m l7 action alerts port in
      (s.score ≤ 100)
      × (floor_of s.level ≤ s.score)
      × (s.score < ceiling_of s.level)
      × (length s.contributing_factors ≤ 5)
unfolding calculate_score
calculate_score_bounds w m l7 action alerts port =
    let t = tally w m l7 action alerts port in
    let small : min 100 t.raw_score ≤ 100 = omega arith in
    let (low, high) = level_of_range (min 100 t.raw_score) small in
    (small, low, high, tally-FewFactors w m l7 action alerts port)
