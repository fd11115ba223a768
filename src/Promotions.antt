-- ===== src/Promotions.antt =====
-- src/promotions/promotions.service.ts: proposals for the next rank. The clock and the ids of new rows are
-- arguments.
pub mod Open
use vovinam_api_node.Base.{
  ℕ, Bool, true, false, not, ◌&&◌, Option, none, some, List, [], ◌∷◌, ◌++◌, Text, leb, ◌==◌,
  is_none, is_some, if◌then◌else◌, find_first, find_many, find_unique, update_many,
}
use vovinam_api_node.Schema.{
  Role, admin, Caller, StudentProfile, BeltRank, PromotionProposal, ProposalStatus, Database,
}
use vovinam_api_node.Service.{
  Action, ◌>>=◌, ◌>>◌, pure, throw_if, or_throw, gets, modify, record_entry, not_found, conflict,
  unique_violation, record_missing, proposal_created, proposal_updated, proposal_reviewed,
}
use vovinam_api_node.Ownership.{assert_can_access, is_live, visible_student_ids}

abbrev pub proposal_key : PromotionProposal → ℕ
proposal_key p = p.id

abbrev pub is_pending : ProposalStatus → Bool
is_pending ProposalStatus.pending = true
is_pending _ = false

abbrev pub is_open_for : ℕ → PromotionProposal → Bool
is_open_for student p = p.student_id == student && is_pending p.status

abbrev is_live_profile : ℕ → StudentProfile → Bool
is_live_profile student p = p.id == student && is_live p

abbrev is_active_rank : ℕ → BeltRank → Bool
is_active_rank k r = r.id == k && r.is_active

abbrev order_of : Option BeltRank → ℕ
order_of none = 0
order_of (some r) = r.order_index

-- `student.currentBeltRank?.orderIndex ?? 0`
abbrev pub current_order : Option ℕ → Database → ℕ
current_order none db = 0
current_order (some rank) db = order_of (find_unique (λ (r : BeltRank). r.id) rank db.ranks)

pub record CreateProposalDto : Type 0 where
  pub student_id : ℕ
  pub proposed_rank_id : ℕ
  pub note : Option Text

abbrev pub new_proposal : ℕ → ℕ → CreateProposalDto → PromotionProposal
new_proposal new_id author dto = record {
  id = new_id;
  student_id = dto.student_id;
  proposed_rank_id = dto.proposed_rank_id;
  proposed_by_user_id = author;
  note = dto.note;
  status = ProposalStatus.pending;
  reviewed_by_user_id = none;
  reviewed_at = none;
  review_note = none;
}

abbrev pub add_proposal : PromotionProposal → Database → Database
add_proposal p db = record db { proposals = db.proposals ++ p ∷ [] }

unfoldable pub insert_proposal : PromotionProposal → Action PromotionProposal
insert_proposal p = do
  throw_if (is_some (← gets (λ db. find_unique proposal_key p.id db.proposals))) unique_violation
  modify (add_proposal p)
  pure p

-- `create` up to its insertion
unfoldable pub check_proposal : Caller → CreateProposalDto → Action (Unit {0})
check_proposal caller dto = do
  assert_can_access caller dto.student_id
  profile ←
      or_throw (← gets (λ db. find_first (is_live_profile dto.student_id) db.profiles)) not_found
  rank ←
      or_throw (← gets (λ db. find_first (is_active_rank dto.proposed_rank_id) db.ranks)) not_found
  throw_if (leb rank.order_index (← gets (current_order profile.current_belt_rank_id)))
      (conflict "The proposed rank is not above the student’s current rank")
  throw_if (is_some (← gets (λ db. find_first (is_open_for dto.student_id) db.proposals)))
      (conflict "The student already has an open promotion proposal")

-- `create` from its insertion on
unfoldable pub write_proposal : Caller → CreateProposalDto → (new_id : ℕ) → Action PromotionProposal
write_proposal caller dto new_id = do
  proposal ← insert_proposal (new_proposal new_id caller.id dto)
  record_entry (some caller.id) (proposal_created proposal.id dto.student_id dto.proposed_rank_id)
      true
  pure proposal

-- `create`
unfoldable pub create_proposal :
    Caller → CreateProposalDto → (new_id : ℕ) → Action PromotionProposal
create_proposal caller dto new_id = check_proposal caller dto >> write_proposal caller dto new_id

abbrev pub is_proposal : ℕ → PromotionProposal → Bool
is_proposal k p = p.id == k

abbrev pub update_proposal : ℕ → (PromotionProposal → PromotionProposal) → Database → Database
update_proposal k f db = record db { proposals = update_many (is_proposal k) f db.proposals }

abbrev is_admin : Role → Bool
is_admin admin = true
is_admin _ = false

abbrev or_kept : Option Text → Option Text → Option Text
or_kept none old = old
or_kept (some t) old = some t

abbrev pub noted_row : Option Text → PromotionProposal → PromotionProposal
noted_row note p = record p { note = or_kept note p.note }

-- `promotionProposal.update({ where: { id } })`: it has no other condition.
unfoldable pub write_proposal_row :
    ℕ → (PromotionProposal → PromotionProposal) → Action PromotionProposal
write_proposal_row k f = do
  proposal ← or_throw (← gets (λ db. find_unique proposal_key k db.proposals)) record_missing
  modify (update_proposal k f)
  pure (f proposal)

-- `updateNote` up to its update
unfoldable pub check_note : Caller → (k : ℕ) → Action (Unit {0})
check_note caller k = do
  proposal ← or_throw (← gets (λ db. find_unique proposal_key k db.proposals)) not_found
  throw_if (not (is_pending proposal.status)) (conflict "Only pending proposals can be edited")
  throw_if (not (is_admin caller.role) && not (proposal.proposed_by_user_id == caller.id)) not_found

-- `updateNote` from its update on
unfoldable pub write_note : Caller → (k : ℕ) → (note : Option Text) → Action PromotionProposal
write_note caller k note = do
  updated ← write_proposal_row k (noted_row note)
  record_entry (some caller.id) (proposal_updated k) true
  pure updated

-- `updateNote`
unfoldable pub update_note : Caller → (k : ℕ) → (note : Option Text) → Action PromotionProposal
update_note caller k note = check_note caller k >> write_note caller k note

-- The two outcomes of a review.
pub data Verdict : Type 0 where
  approve reject : Verdict

abbrev pub verdict_status : Verdict → ProposalStatus
verdict_status approve = ProposalStatus.approved
verdict_status reject = ProposalStatus.rejected

abbrev pub reviewed_row :
    Verdict → Option Text → (reviewer now : ℕ) → PromotionProposal → PromotionProposal
reviewed_row verdict note reviewer now p = record p {
  status = verdict_status verdict;
  reviewed_by_user_id = some reviewer;
  reviewed_at = some now;
  review_note = or_kept note p.review_note;
}

-- `review` up to its update
unfoldable pub check_verdict : Caller → (k : ℕ) → Action (Unit {0})
check_verdict caller k = do
  throw_if (not (is_admin caller.role)) not_found
  proposal ← or_throw (← gets (λ db. find_unique proposal_key k db.proposals)) not_found
  throw_if (not (is_pending proposal.status)) (conflict "Only pending proposals can be reviewed")

-- `review` from its update on
unfoldable pub write_verdict :
    Caller → (k : ℕ) → Verdict → (note : Option Text) → (now : ℕ) → Action PromotionProposal
write_verdict caller k verdict note now = do
  updated ← write_proposal_row k (reviewed_row verdict note caller.id now)
  record_entry (some caller.id) (proposal_reviewed k (verdict_status verdict)) true
  pure updated

-- `review`
unfoldable pub review_proposal :
    Caller → (k : ℕ) → Verdict → (note : Option Text) → (now : ℕ) → Action PromotionProposal
review_proposal caller k verdict note now =
    check_verdict caller k >> write_verdict caller k verdict note now

abbrev has_status : Option ProposalStatus → ProposalStatus → Bool
has_status none s = true
has_status (some ProposalStatus.pending) ProposalStatus.pending = true
has_status (some ProposalStatus.approved) ProposalStatus.approved = true
has_status (some ProposalStatus.rejected) ProposalStatus.rejected = true
has_status (some _) s = false

abbrev fits : Option ℕ → ℕ → Bool
fits none k = true
fits (some j) k = k == j

abbrev is_among : List ℕ → ℕ → Bool
is_among [] k = false
is_among (j ∷ ks) k = if k == j then true else is_among ks k

-- The last of the three spreads takes the place of the second.
abbrev student_fits : Option (List ℕ) → Option ℕ → ℕ → Bool
student_fits none query k = fits query k
student_fits (some visible) query k = is_among visible k

-- The selection of `list`, without its order and pages
unfoldable pub list_proposals :
    Caller → Option ProposalStatus → Option ℕ → Database → List PromotionProposal
list_proposals caller status student db =
    find_many
      (λ (p : PromotionProposal).
        has_status status p.status
        && student_fits (visible_student_ids caller db) student p.student_id)
      db.proposals
