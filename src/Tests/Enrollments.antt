-- ===== src/Tests/Enrollments.antt =====
-- A class with one place, and a student without a proposal.
use vovinam_api_node.Base.{
  none, some, refl, find_first, find_unique, [], ◌∷◌, arith, count_where, codes, true,
}
use vovinam_api_node.Schema.{Class, ClassStatus, BeltRank}
use vovinam_api_node.Service.{World}
use vovinam_api_node.Enrollments.{create_enrollment, remove_enrollment}
use vovinam_api_node.Enrollments.Capacity
use vovinam_api_node.Ownership.{assert_can_access, can_access}
use vovinam_api_node.Promotions.{
  CreateProposalDto, check_proposal, check_note, check_verdict, write_proposal, insert_proposal,
  reject,
}
use vovinam_api_node.Promotions.Open
use vovinam_api_node.Tests.Payments.{db, treasurer}
use vovinam_api_node.Tests.Billing.{trainee}

abbrev beginners : Class
beginners = record {
  id = 4;
  name = codes "Beginners";
  instructor_id = 30;
  capacity = 1;
  status = ClassStatus.active;
}

abbrev yellow : BeltRank
yellow = record { id = 2; order_index = 2; is_active = true }

abbrev hall : World
hall = record {
  db = record db {
    profiles = trainee ∷ [];
    classes = beginners ∷ [];
    ranks = yellow ∷ [];
    enrollments = [];
    proposals = [];
  };
  audit_queue = [];
  store = [];
  mails = [];
}

-- The trainee joins twice and leaves.
abbrev term : World
term =
    (remove_enrollment 50 300
      (create_enrollment 51 7 4 200 (create_enrollment 50 7 4 100 hall).1).1).1

Reach-IsOrderly_example : Capacity.IsOrderly term.db
Reach-IsOrderly_example =
    Capacity.Reach-IsOrderly
      (Capacity.leaves (Capacity.joins (Capacity.joins Capacity.here 50 7 4 100) 51 7 4 200) 50 300)
      (unfold count_where in record { within = λ k c p. omega arith; single = λ s k. omega arith })

abbrev proposal : CreateProposalDto
proposal = record { student_id = 7; proposed_rank_id = 2; note = none }

-- The proposal is made, and it is rejected while an edit of it is on its way.
abbrev making : Open.Task
making = Open.creating treasurer proposal

abbrev editing : Open.Task
editing = Open.editing treasurer 60 (some (codes "soon"))

abbrev rejecting : Open.Task
rejecting = Open.reviewing treasurer 60 reject none

abbrev made : World
made = Open.run_task making 60 400 hall

Reach-HasOneOpen_example :
    Open.HasOneOpen (Open.run_task editing 0 700 (Open.run_task rejecting 0 500 made)).db
unfolding Open.run_task Open.check_task check_proposal check_note check_verdict write_proposal
    insert_proposal assert_can_access can_access find_first find_unique
Reach-HasOneOpen_example =
    Open.Reach-HasOneOpen {w = hall}
      (Open.next
        (Open.next
          (Open.next
            (Open.next
              (Open.next (Open.next Open.here (Open.checks making refl) (λ s. ground arith))
                (Open.writes [] making [] 60 400 refl) (λ s. omega arith))
              (Open.checks editing refl) (λ s. omega arith))
            (Open.checks rejecting refl) (λ s. omega arith))
          (Open.writes [] rejecting (editing ∷ []) 0 500 refl) (λ s. omega arith))
        (Open.writes [] editing [] 0 700 refl) (λ s. omega arith))
      (unfold count_where in λ s. omega arith)
