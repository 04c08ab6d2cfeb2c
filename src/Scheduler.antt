-- ===== src/Scheduler.antt =====
-- The scheduled reports of the agent: internal/scheduler/heartbeat.go and metrics.go.
pub mod Metrics
use ror_agent.Prelude.{
  ◌≡◌, refl, Option, none, some, Error, foreign, ForeignError, Outcome, ok, err, panic, ◌>>=◌,
  >>=-eq-ok, ok-injective, Bool,
}
use ror_agent.Heartbeat.Report.{Env, Cluster, get_heartbeat_report}

module _ {W : Type 0} (env : Env W) (send_heartbeat : Cluster → W → Option ForeignError × W) where
  -- The API takes the report, or answers an error.
  abbrev taken : Bool → Option ForeignError × W → Outcome (Bool × W)
  taken alerted (none, w) = ok (alerted, w)
  taken alerted (some e, w) = err (foreign e)

  unfoldable pub heartbeat_reporting : Bool → W → Outcome (Bool × W)
  heartbeat_reporting alerted w =
      get_heartbeat_report env alerted w >>= λ r. taken r.0.1 (send_heartbeat r.0.0 r.1)

  -- What a heartbeat that succeeds has done.
  pub record Beaten (alerted : Bool) (w : W) (alerted' : Bool) (w' : W) : Type 1 where
    pub report : Cluster
    pub between : W
    pub made : get_heartbeat_report env alerted w ≡ ok ((report, alerted'), between)
    pub accepted : send_heartbeat report between ≡ (none, w')

  taken-ok :
      (alerted alerted' : Bool) (r : Option ForeignError × W) (w' : W)
      → taken alerted r ≡ ok (alerted', w')
      → (alerted ≡ alerted') × (r ≡ (none, w'))
  taken-ok alerted alerted' (none, w) w' h = (cc, cc)
  taken-ok alerted alerted' (some e, w) w' h = cc

  -- If HeartbeatReporting returns no error, a report was made, and the API took that report.
  pub heartbeat_reporting-Beaten :
      (alerted alerted' : Bool) (w w' : W)
      → heartbeat_reporting alerted w ≡ ok (alerted', w')
      → Beaten alerted w alerted' w'
  unfolding heartbeat_reporting
  heartbeat_reporting-Beaten alerted alerted' w w' h =
      let (r, made, sent) =
        >>=-eq-ok (get_heartbeat_report env alerted w) (λ r. taken r.0.1 (send_heartbeat r.0.0 r.1))
          h in
      let (same, accepted) = taken-ok r.0.1 alerted' (send_heartbeat r.0.0 r.1) w' sent in
      record { report = r.0.0; between = r.1; made = rw (← same) made; accepted = accepted }
