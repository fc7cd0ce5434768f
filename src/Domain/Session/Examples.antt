-- ===== src/Domain/Session/Examples.antt =====
-- Concrete runs of packages/domain/src/session.ts, and the theorems at concrete inputs.
use kiosk_project.Base.{◌≡◌, refl, true, false, ok, err}
use kiosk_project.Domain.Session.{
  can_transition_session, awaiting_payment, paid, printing, canceled, VersionedSessionState,
  transition_session, is_uploadable_session_state, invalid_session_transition,
}
use kiosk_project.Domain.Session.History.{
  History, here, next, Visits, is_past_payment, paid_stays_paid, no_print_unpaid,
}

abbrev waiting_to_pay : VersionedSessionState
waiting_to_pay = record { state = awaiting_payment; version = 3 }

abbrev paid_row : VersionedSessionState
paid_row = record { state = paid; version = 4 }

abbrev printing_row : VersionedSessionState
printing_row = record { state = printing; version = 5 }

pay : transition_session waiting_to_pay paid 3 ≡ ok paid_row
unfolding transition_session can_transition_session
pay = refl

print : transition_session paid_row printing 4 ≡ ok printing_row
unfolding transition_session can_transition_session
print = refl

paid_cannot_cancel :
    transition_session paid_row canceled 4 ≡ err (invalid_session_transition paid canceled)
unfolding transition_session can_transition_session
paid_cannot_cancel = refl

abbrev printed : History paid_row printing_row
printed = next printing 4 here print

abbrev paid_and_printed : History waiting_to_pay printing_row
paid_and_printed = next printing 4 (next paid 3 here pay) print

paid_stays_paid_example :
    (is_past_payment printing ≡ true) × (is_uploadable_session_state printing ≡ false)
paid_stays_paid_example = paid_stays_paid printed refl

no_print_unpaid_example : Visits paid paid_and_printed
no_print_unpaid_example = no_print_unpaid paid_and_printed refl refl
