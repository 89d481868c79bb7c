-- ===== src/Notifier/Reports.antt =====
-- What a receiver of the reports of RunSingle (collector/lib/NetworkStatusNotifier.cpp) knows after a
-- run of rounds.
use collector.Prelude.{
  ◌≡◌, refl, sym, ap, ◌∙◌, Bool, true, none, some, List, [], ◌∷◌, arith, Bool-cases, Option-cases,
  inl, inr,
}
use collector.Prelude.Int.{ℤ, ◌≤ℤ◌, pos_part, neg_part}
use collector.Net.Endpoint.{Connection, ContainerEndpoint}
use collector.Net.Keys.{connection_keys, advertised_endpoint_keys}
use collector.ExternalIps.{ExternalIpsConfig}
use collector.Tracker.State.{Tracker}
use collector.Notifier.{
  Config, Round, RunState, Report, update_all, report_round, has_message, run_single,
}
use collector.Notifier.OneRound.{learn, IsReported, round-IsReported}

-- What holds of the rounds of a run: the clock does not go back, the configuration of external
-- addresses stays as it is, and messages can be written.
abbrev pub AreSteady : ℤ → ExternalIpsConfig → List Round → Type 0
AreSteady time external_ips [] = Unit {0}
AreSteady time external_ips (round ∷ rest) =
    (time ≤ℤ round.time_micros)
    × (round.external_ips ≡ external_ips)
    × (round.write_succeeds ≡ true)
    × AreSteady round.time_micros external_ips rest

-- What a receiver knows after a run of reports.
pub learn_conns : List Report → (Connection → Bool) → Connection → Bool
learn_conns [] seen = seen
learn_conns (r ∷ rest) seen = learn_conns rest (learn connection_keys r.conn_delta seen)

pub learn_endpoints : List Report → (ContainerEndpoint → Bool) → ContainerEndpoint → Bool
learn_endpoints [] seen = seen
learn_endpoints (r ∷ rest) seen =
    learn_endpoints rest (learn advertised_endpoint_keys r.endpoint_delta seen)

prev_external_ips-report_round :
    (config : Config) (round : Round) (s : RunState) (scraped : Tracker)
    → round.external_ips ≡ s.prev_external_ips
    → (report_round config round s scraped).0.prev_external_ips ≡ round.external_ips
unfolding report_round
prev_external_ips-report_round config round s scraped h = ground arith

time_at_last_scrape-report_round :
    (config : Config) (round : Round) (s : RunState) (scraped : Tracker)
    → (report_round config round s scraped).0.time_at_last_scrape ≡ round.time_micros
unfolding report_round
time_at_last_scrape-report_round config round s scraped = refl

module _ (config : Config) (round : Round) (rest : List Round) (s : RunState) where
  abbrev after_round : Tracker → RunState
  after_round scraped = (report_round config round s scraped).0

  abbrev round_report : Tracker → Report
  round_report scraped = (report_round config round s scraped).1

  abbrev skipped : RunState
  skipped = record s { tracker = round.before_update s.tracker }

  run_single-skip :
      update_all config round (round.before_update s.tracker) ≡ none
      → run_single config (round ∷ rest) s ≡ run_single config rest skipped
  unfolding run_single
  run_single-skip e = rw (e, run_single)

  run_single-report :
      (scraped : Tracker)
      → update_all config round (round.before_update s.tracker) ≡ some scraped
      → round.write_succeeds ≡ true
      → run_single config (round ∷ rest) s ≡ (
        (run_single config rest (after_round scraped)).0,
        round_report scraped ∷ (run_single config rest (after_round scraped)).1,
      )
  unfolding run_single
  run_single-report scraped e w = elim (Bool-cases (has_message (round_report scraped))) [
    | inl m ↦ rw (e, run_single) (rw (m, w) refl)
    | inr m ↦ rw (e, run_single) (rw m refl)
  ]

-- What a run and its receiver come to.
abbrev IsReportedAfter :
    Config → List Round → RunState → (Connection → Bool) → (ContainerEndpoint → Bool) → Type 0
IsReportedAfter config rounds s seen seen_endpoints =
    IsReported config (learn_conns (run_single config rounds s).1 seen)
      (learn_endpoints (run_single config rounds s).1 seen_endpoints) (run_single config rounds s).0

run-from :
    (config : Config) (rounds : List Round) (s : RunState) (seen : Connection → Bool)
    (seen_endpoints : ContainerEndpoint → Bool) (time : ℤ) (external_ips : ExternalIpsConfig)
    → IsReported config seen seen_endpoints s
    → s.time_at_last_scrape ≤ℤ time
    → s.prev_external_ips ≡ external_ips
    → AreSteady time external_ips rounds
    → IsReportedAfter config rounds s seen seen_endpoints
unfolding learn_conns learn_endpoints
run-from config [] s seen seen_endpoints time external_ips reported before same steady =
    unfold run_single in reported
run-from config (round ∷ rest) s seen seen_endpoints time external_ips reported before same steady =
    elim (Option-cases (update_all config round (round.before_update s.tracker))) [
      | inl e ↦ rw (run_single-skip config round rest s e) (
          run-from config rest (skipped config round rest s) seen seen_endpoints round.time_micros
            external_ips
            (record {
              conns = reported.conns;
              endpoints = reported.endpoints;
              conns_unique = reported.conns_unique;
              endpoints_unique = reported.endpoints_unique;
            })
            (omega (arith, steady.0)) same steady.3)
      | inr (scraped, e) ↦ rw (run_single-report config round rest s scraped e steady.2) (
          run-from config rest (after_round config round rest s scraped) _ _ round.time_micros
            external_ips
            (round-IsReported config round s scraped seen seen_endpoints reported
              (omega (arith, steady.0)) (steady.1 ∙ sym same))
            (omega (
              arith,
              ap pos_part (time_at_last_scrape-report_round config round s scraped),
              ap neg_part (time_at_last_scrape-report_round config round s scraped),
            ))
            (prev_external_ips-report_round config round s scraped (steady.1 ∙ sym same) ∙ steady.1)
            steady.3)
    ]

-- With the clock never going back, the configuration of external addresses unchanged and all messages
-- written, a receiver that knew what is open in the old state of a notifier, whatever the other threads
-- do to the tracker and whichever scrapes fail, knows after the reports of a run which connections and
-- endpoints are open in the old state that the run leaves: with afterglow, the connections that are
-- active or in the afterglow period of the last scrape, and without it those that are active.
pub run_single-IsReported :
    (config : Config) (rounds : List Round) (s : RunState) (seen : Connection → Bool)
    (seen_endpoints : ContainerEndpoint → Bool)
    → IsReported config seen seen_endpoints s
    → AreSteady s.time_at_last_scrape s.prev_external_ips rounds
    → IsReported config
        (learn_conns (run_single config rounds s).1 seen)
        (learn_endpoints (run_single config rounds s).1 seen_endpoints)
        (run_single config rounds s).0
run_single-IsReported config rounds s seen seen_endpoints reported steady =
    run-from config rounds s seen seen_endpoints s.time_at_last_scrape s.prev_external_ips reported
      (omega arith) refl steady
