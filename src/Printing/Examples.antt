-- ===== src/Printing/Examples.antt =====
-- Lives of print jobs on concrete tables.
use kiosk_project.Database.PrintJobs.Outcome.{is_open_print_job_status}
use kiosk_project.Database.PrintJobs.Settle.{apply_print_job_settlement, find_print_job}
use kiosk_project.Database.Tables.{update_many, matching}
use kiosk_project.Base.{◌≡◌, refl, inl, true, false, some, none, List, [], ◌∷◌, ok, find, arith}
use kiosk_project.Base.Int.{pos}
use kiosk_project.Domain.Session.{SessionState}
use kiosk_project.Domain.PrintJob.{settle_print_device_result}
use kiosk_project.Domain.Retention.{default_retention_policy}
use kiosk_project.Database.PrintJobs.{PrintJobStatus, CommandStatus, AgentCommand, PrintStore}
use kiosk_project.Database.PrintJobs.Numbering.{Numbered}
use kiosk_project.Database.PrintJobs.Settle.Once.{Closed}
use kiosk_project.Database.PrintJobs.Settle.Money.{OwedOnce}
use kiosk_project.Database.PrintJobs.Settle.Examples.{print_job, tables, nothing_came_out}
use kiosk_project.Worker.DispatchPrint.Reconcile.{Reconciler, release_lease}
use kiosk_project.Api.PrintAgent.{AgentOptions}
use kiosk_project.Api.PrintAgent.Reports.{
  ResultInput, AgentCommandAck, report_result, is_operation_of, submitted,
}
use kiosk_project.Printing.{
  apply_operation, Operation, run, reserve, issue, claim, progress, result, release, overdue,
}
use kiosk_project.Printing.Life.{run-Closed, run-Numbered, run-OwedOnce, run-Undecided, Undecided}
use kiosk_project.Printing.Lease.{release_lease-fences}
use kiosk_project.Printing.Accepted.{report_result-Accepted, Accepted}

abbrev options : AgentOptions
options = record { lease_seconds = 30; retention_policy = default_retention_policy }

abbrev dispatcher : Reconciler
dispatcher = record {
  max_command_attempts = 3;
  retention_policy = default_retention_policy;
  now = pos 50000;
  event_id = λ row. row;
  refund_id = λ row. row;
  audit_id = λ row. row;
  outbox_id = λ row. row;
}

abbrev report : ResultInput
report = record {
  kiosk_id = "lobby";
  credential_id = "agent";
  operation_id = "o1";
  request_id = "request";
  claim_token = "t1";
  body = nothing_came_out;
  device_diagnostics = none;
  held_at = pos 200;
  now = pos 201;
  refund_id = "r1";
  event_id = "e9";
  audit_id = "a1";
  outbox_id = "x1";
}

-- Dispatched, delivered, claimed, handed to the device, lost, and past its deadline.
abbrev silent_life : List Operation
silent_life =
    reserve (record { id = "j1"; dispatch_attempts = 0 }) (pos 10)
    ∷ issue (record {
      print_job_id = "j1";
      attempt = 1;
      now = pos 11;
      command_id = "c1";
      operation_id = "o1";
      event_id = "e1";
    })
    ∷ claim options
        (record { kiosk_id = "lobby"; now = pos 12; claim_token = "t1"; event_id = "e2" })
    ∷ progress options (record {
      kiosk_id = "lobby";
      operation_id = "o1";
      claim_token = "t1";
      state = submitted;
      now = pos 13;
      event_id = "e3";
    })
    ∷ release dispatcher "c1"
    ∷ overdue dispatcher "j1"
    ∷ []

abbrev whole_life : List Operation
whole_life = result options report ∷ silent_life

abbrev canceled_tables : PrintStore
canceled_tables = tables PrintJobStatus.canceled SessionState.canceled

run-Closed_example :
    Closed "j1" (print_job PrintJobStatus.canceled) (run whole_life canceled_tables)
unfolding find_print_job is_open_print_job_status
run-Closed_example =
    run-Closed whole_life canceled_tables "j1" (print_job PrintJobStatus.canceled) (refl, refl)

abbrev queued_tables : PrintStore
queued_tables = tables PrintJobStatus.queued SessionState.printing

run-Numbered_example : Numbered (run whole_life queued_tables).events
run-Numbered_example = run-Numbered whole_life queued_tables (λ id. (0, refl))

run-OwedOnce_example : OwedOnce (run whole_life queued_tables).refunds
unfolding matching
run-OwedOnce_example = run-OwedOnce whole_life queued_tables (λ p. omega arith)

abbrev printing_tables : PrintStore
printing_tables = tables PrintJobStatus.printing SessionState.printing

run-Undecided_example : Undecided "j1" (run silent_life printing_tables)
unfolding find_print_job
run-Undecided_example =
    run-Undecided silent_life printing_tables "j1"
      (print_job PrintJobStatus.printing, refl, inl refl)
      (refl, (refl, (refl, (refl, (refl, (refl, tt))))))

-- The agent holds the command of a job.
abbrev leased : AgentCommand
leased = record {
  id = "c1";
  kiosk_id = "lobby";
  session_id = "s1";
  print_job_id = "j1";
  operation_id = "o1";
  status = CommandStatus.claimed;
  payload = record { manifest = "{}"; manifest_hash = "h"; simulated_outcome = none };
  attempts = 1;
  available_at = pos 11;
  claim_token = some "t1";
  claimed_at = some (pos 12);
  lease_expires_at = some (pos 30012);
  expires_at = pos 90000;
  result_code = none;
  completed_at = none;
  created_at = pos 11;
  updated_at = pos 12;
}

abbrev leased_tables : PrintStore
leased_tables = record (tables PrintJobStatus.dispatched SessionState.canceled) {
  commands = leased ∷ [];
}

abbrev taken_back : PrintStore
taken_back = elim (release_lease dispatcher "c1" leased_tables) [ ok r ↦ r.1 | _ ↦ leased_tables ]

-- A second pass finds the lease taken back already.
abbrev after : PrintStore
after = run (release dispatcher "c1" ∷ []) taken_back

abbrev offered_again : AgentCommand
offered_again = record leased {
  status = CommandStatus.pending;
  claim_token = none;
  lease_expires_at = none;
  available_at = pos 50000;
  updated_at = pos 50000;
}

abbrev refused : AgentCommandAck
refused = record { accepted = false; print_job_status = PrintJobStatus.dispatched }

release_lease-fences_example : (refused.accepted ≡ false) × (after ≡ after)
unfolding apply_operation release_lease matching update_many is_operation_of report_result
    find_print_job
release_lease-fences_example =
    release_lease-fences dispatcher "c1" (release dispatcher "c1" ∷ []) leased_tables taken_back
      after options report refused offered_again refl (refl, tt) refl refl refl

abbrev settled_tables : PrintStore
settled_tables = elim (report_result options report leased_tables) [
  | ok r ↦ r.1
  | _ ↦ leased_tables
]

report_result-Accepted_example :
    (c : AgentCommand) × (find
        (is_operation_of report.kiosk_id report.operation_id)
        leased_tables.commands
      ≡ some c)
    × Accepted report c leased_tables settled_tables
unfolding report_result find_print_job apply_print_job_settlement matching update_many
    settle_print_device_result
report_result-Accepted_example =
    report_result-Accepted options report leased_tables settled_tables
      (record { accepted = true; print_job_status = PrintJobStatus.failed }) refl refl
