-- ===== src/Domain/PrintJob/Examples.antt =====
-- The settlement theorems of packages/domain/src/print-job.ts at concrete device results.
use kiosk_project.Base.{◌≡◌, ◌↔◌, refl, true, none, some}
use kiosk_project.Base.Int.{pos}
use kiosk_project.Domain.PrintJob.{
  PrintDeviceState, PrintDeviceResult, confirmed, settle_print_device_result,
}
use kiosk_project.Domain.PrintJob.Settlement.{NothingPrinted, refund_iff}

abbrev refused : PrintDeviceResult
refused = record {
  state = PrintDeviceState.failed;
  confidence = confirmed;
  failure_code = some "PAPER_JAM";
  warning_code = none;
  sheets_produced = some (pos 0);
}

money_back : (settle_print_device_result refused).refund_obligation ≡ true
unfolding settle_print_device_result
money_back = refl

refund_iff_example :
    ((settle_print_device_result refused).refund_obligation ≡ true) ↔ NothingPrinted refused
refund_iff_example = refund_iff refused
