-- ===== src/Printer/JobName/Examples.antt =====
-- Names of device jobs.
use kiosk_project.Base.{◌≡◌, refl, codes, List, ℕ, some, none}
use kiosk_project.Base.{arith}
use kiosk_project.Domain.ObjectKeys.{is_session_id, session_id_classes, to_lower_case}
use kiosk_project.Printer.Submission.{is_operation_id}
use kiosk_project.Printer.JobName.{device_job_name, parse_device_job_name}
use kiosk_project.Printer.JobName.RoundTrip.{parse-device_job_name}

abbrev operation_id : List ℕ
operation_id = codes "0A1b2c3d-0000-4000-8000-00000000000a"

name : device_job_name operation_id 1 12 ≡ codes "0A1b2c3d-0000-4000-8000-00000000000a#001of012"
unfolding device_job_name
name = refl

-- A thousand documents take a digit too many to be read back.
thousand : parse_device_job_name (device_job_name operation_id 0 1000) ≡ none
unfolding device_job_name parse_device_job_name
thousand = refl

parse-device_job_name_example :
    parse_device_job_name (device_job_name operation_id 1 12)
    ≡ some (record { operation_id = to_lower_case operation_id; position = 1; document_count = 12 })
unfolding is_operation_id is_session_id session_id_classes to_lower_case
parse-device_job_name_example =
    parse-device_job_name operation_id 1 12 refl (omega arith) (omega arith)
