-- ===== src/Tests/Leaves.antt =====
-- Two requests of one student, one of them approved.
use vovinam_api_node.Base.{refl, none, some, [], ◌∷◌, codes, find_unique}
use vovinam_api_node.Schema.{Caller, student, LeaveRequest, LeaveStatus}
use vovinam_api_node.Service.{World}
use vovinam_api_node.Leaves.{reject, check_review, check_cancel}
use vovinam_api_node.Leaves.Decisions.{
  HasLeave, Task, reviewing, cancelling, check_task, run_task, here, next, checks, writes,
  Reach-HasLeave,
}
use vovinam_api_node.Tests.Payments.{db, treasurer}
use vovinam_api_node.Tests.Billing.{trainee}

abbrev approved_leave : LeaveRequest
approved_leave = record {
  id = 1;
  student_id = 7;
  class_id = 4;
  requested_by_user_id = some 20;
  session_date = 100;
  reason = codes "ill";
  status = LeaveStatus.approved;
  reviewed_by_user_id = some 3;
  reviewed_at = some 40;
  review_note = none;
}

abbrev open_leave : LeaveRequest
open_leave = record approved_leave { id = 2; session_date = 200; status = LeaveStatus.pending }

abbrev desk : World
desk = record {
  db = record db { profiles = trainee ∷ []; leaves = approved_leave ∷ open_leave ∷ [] };
  audit_queue = [];
  store = [];
  mails = [];
}

abbrev pupil : Caller
pupil = record { id = 20; role = student }

-- The administrator and the pupil have both read the open request before either writes.
abbrev rejecting : Task
rejecting = reviewing treasurer 2 reject none

abbrev withdrawing : Task
withdrawing = cancelling pupil 2

Reach-HasLeave_example :
    HasLeave 1 approved_leave (run_task withdrawing 70 (run_task rejecting 60 desk)).db
unfolding find_unique check_task check_review check_cancel
Reach-HasLeave_example =
    Reach-HasLeave {s = record { world = desk; tasks = [] }} 1 approved_leave
      (next
        (next
          (next (next here (checks rejecting open_leave refl)) (checks withdrawing open_leave refl))
          (writes (withdrawing ∷ []) rejecting [] 60 refl))
        (writes [] withdrawing [] 70 refl))
      tt refl refl
