-- ===== src/Tests/Ownership.antt =====
-- The guard and the list scope at a student with a verified parent, and at a deleted profile.
use vovinam_api_node.Base.{◌≡◌, refl, true, none, some, [], ◌∷◌, inr, find_unique, find_many}
use vovinam_api_node.Schema.{Caller, admin, parent, StudentProfile, ParentStudentLink, Database}
use vovinam_api_node.Service.{World, err, not_found}
use vovinam_api_node.Ownership.{can_access, assert_can_access, visible_student_ids}
use vovinam_api_node.Ownership.Laws.{
  contains, visible_student_ids-eq-can_access, assert_can_access-hides,
}
use vovinam_api_node.Tests.Payments.{db}
use vovinam_api_node.Tests.Billing.{trainee}

abbrev former : StudentProfile
former = record trainee { id = 8; user_id = none; deleted_at = some 40 }

abbrev link : ParentStudentLink
link = record { id = 1; parent_user_id = 30; student_id = 7; verified = true }

abbrev family : Database
family = record db { profiles = trainee ∷ former ∷ []; links = link ∷ [] }

abbrev mother : Caller
mother = record { id = 30; role = parent }

abbrev director : Caller
director = record { id = 3; role = admin }

abbrev office : World
office = record { db = family; audit_queue = []; store = []; mails = [] }

visible_student_ids-eq-can_access_example : contains 7 (7 ∷ []) ≡ can_access mother 7 family
visible_student_ids-eq-can_access_example =
    visible_student_ids-eq-can_access mother 7 family trainee (7 ∷ [])
      (unfold find_unique in (refl, (refl, tt))) (unfold find_unique in (refl, refl))
      (unfold visible_student_ids find_many find_unique in refl)

assert_can_access-hides_example : assert_can_access director 8 office ≡ (err not_found, office)
assert_can_access-hides_example =
    assert_can_access-hides director 8 office (unfold find_unique in (refl, (refl, tt)))
      (inr (former, unfold find_unique in refl, refl))
