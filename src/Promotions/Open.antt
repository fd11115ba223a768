-- ===== src/Promotions/Open.antt =====
-- The open proposals of a student (src/promotions/promotions.service.ts), for calls that overlap: `create`,
-- `updateNote` and `review` check first and write later, and between the two any other call may run.
use vovinam_api_node.Base.{
  ℕ, ◌+◌, ◌≤◌, ◌≡◌, refl, sym, subst, Bool, true, false, not, Option, none, some, List, [], ◌∷◌,
  ◌++◌, Text, arith, leb, ◌==◌, ==_iff, is_some, if◌then◌else◌, find_first, find_unique,
  count_where, count_where-append, count_where-none, count_where-shrink, Bool-cases, inl, inr,
}
use vovinam_api_node.Schema.{Caller, PromotionProposal, Database}
use vovinam_api_node.Service.{
  World, Result, Error, ok, err, ok-err, Answers, throw_if-Answers, or_throw-Answers,
  resume-Answers, or_throw, or_throw-state, throw_if, resume-keeps, resume-db,
}
use vovinam_api_node.Ownership.{assert_can_access, can_access}
use vovinam_api_node.Promotions.{
  proposal_key, is_open_for, is_live_profile, is_active_rank, current_order, CreateProposalDto,
  new_proposal, insert_proposal, check_proposal, write_proposal, write_proposal_row, is_proposal,
  noted_row, check_note, write_note, Verdict, approve, reject, reviewed_row, check_verdict,
  write_verdict,
}

-- A call that has checked, and has not yet written.
pub data Task : Type 0 where
  creating : Caller → CreateProposalDto → Task
  editing : Caller → ℕ → Option Text → Task
  reviewing : Caller → ℕ → Verdict → Option Text → Task

unfoldable pub check_task : Task → World → Result (Unit {0}) × World
check_task (creating caller dto) w = check_proposal caller dto w
check_task (editing caller k remark) w = check_note caller k w
check_task (reviewing caller k verdict remark) w = check_verdict caller k w

unfoldable pub run_task : Task → (new_id now : ℕ) → World → World
run_task (creating caller dto) new_id now w = (write_proposal caller dto new_id w).1
run_task (editing caller k remark) new_id now w = (write_note caller k remark w).1
run_task (reviewing caller k verdict remark) new_id now w =
    (write_verdict caller k verdict remark now w).1

abbrev is_creation_for : ℕ → Task → Bool
is_creation_for s (creating caller dto) = dto.student_id == s
is_creation_for s (editing caller k remark) = false
is_creation_for s (reviewing caller k verdict remark) = false

-- The creations for a student that are still to write.
abbrev pub creations : ℕ → List Task → ℕ
creations s [] = 0
creations s (t ∷ ts) = (if is_creation_for s t then 1 else 0) + creations s ts

pub record Site : Type 0 where
  pub world : World
  pub tasks : List Task

pub data Move (s : Site) : Site → Type 0 where
  checks : (t : Task) → (check_task t s.world).0 ≡ ok tt → Move s (record s { tasks = t ∷ s.tasks })
  writes :
      (before : List Task) (t : Task) (after : List Task) (new_id now : ℕ)
      → s.tasks ≡ before ++ t ∷ after
      → Move s (record { world = run_task t new_id now s.world; tasks = before ++ after })

-- Moves through sites of which none has two creations for one student that are still to write.
pub data Reach (s : Site) : Site → Type 0 where
  here : Reach s s
  next :
      {t u : Site}
      → Reach s t
      → Move t u
      → ((student : ℕ) → creations student u.tasks ≤ 1)
      → Reach s u

abbrev pub HasOneOpen : Database → Type 0
HasOneOpen db = (s : ℕ) → count_where (is_open_for s) db.proposals ≤ 1

-- The open proposals and the creations that are still to write are one at most.
abbrev IsRoomy : Site → Type 0
IsRoomy s =
    (student : ℕ)
    → count_where (is_open_for student) s.world.db.proposals + creations student s.tasks ≤ 1

creations-split :
    (s : ℕ) (ts : List Task) (t : Task) (us : List Task)
    → creations s (ts ++ t ∷ us) ≡ (if is_creation_for s t then 1 else 0) + creations s (ts ++ us)
creations-split s [] t us = refl
creations-split s (x ∷ ts) t us = omega (arith, creations-split s ts t us)

abbrev open_of : ℕ → World → ℕ
open_of s w = count_where (is_open_for s) w.db.proposals

-- A write to one proposal opens none.
write_proposal_row-opens :
    (k s : ℕ) (f : PromotionProposal → PromotionProposal) (w : World)
    → ((p : PromotionProposal) → is_open_for s (f p) ≡ true → is_open_for s p ≡ true)
    → open_of s (write_proposal_row k f w).1 ≤ open_of s w
unfolding write_proposal_row
write_proposal_row-opens k s f w closes =
    let row = find_unique proposal_key k w.db.proposals in
    resume-keeps (λ db. count_where (is_open_for s) db.proposals ≤ open_of s w) w (or_throw row _ w)
      _ (or_throw-state row _ w) (omega arith)
      λ p. count_where-shrink (is_open_for s) (is_proposal k) f w.db.proposals closes

reviewed-closes :
    (verdict : Verdict) (note : Option Text) (reviewer now s : ℕ) (p : PromotionProposal)
    → is_open_for s (reviewed_row verdict note reviewer now p) ≡ true
    → is_open_for s p ≡ true
reviewed-closes approve remark reviewer now s p e = ground (arith, e)
reviewed-closes reject remark reviewer now s p e = ground (arith, e)

write_proposal-opens :
    (caller : Caller) (dto : CreateProposalDto) (new_id s : ℕ) (w : World)
    → open_of s (write_proposal caller dto new_id w).1
      ≤ open_of s w + (if dto.student_id == s then 1 else 0)
unfolding write_proposal insert_proposal
write_proposal-opens caller dto new_id s w =
    elim (Bool-cases (is_some (find_unique proposal_key new_id w.db.proposals))) [
      | inl taken ↦ rw taken (omega arith)
      | inr fresh ↦
          let p = new_proposal new_id caller.id dto in
          rw fresh (ground (arith, count_where-append (is_open_for s) w.db.proposals p))
    ]

run_task-opens :
    (t : Task) (new_id now s : ℕ) (w : World)
    → open_of s (run_task t new_id now w) ≤ open_of s w + (if is_creation_for s t then 1 else 0)
unfolding run_task write_note write_verdict
run_task-opens (creating caller dto) new_id now s w = write_proposal-opens caller dto new_id s w
run_task-opens (editing caller k remark) new_id now s w =
    resume-db (λ db. count_where (is_open_for s) db.proposals ≤ open_of s w + 0) _
      (write_proposal_row k (noted_row remark) w) (λ q v. refl)
      (omega (arith, write_proposal_row-opens k s (noted_row remark) w (λ p e. e)))
run_task-opens (reviewing caller k verdict remark) new_id now s w =
    let f = reviewed_row verdict remark caller.id now in
    resume-db (λ db. count_where (is_open_for s) db.proposals ≤ open_of s w + 0) _
      (write_proposal_row k f w) (λ q v. refl)
      (omega
        (arith, write_proposal_row-opens k s f w (reviewed-closes verdict remark caller.id now s)))

-- A creation that passes its checks has found no open proposal.
check_proposal-Answers :
    (caller : Caller) (dto : CreateProposalDto) (w : World)
    → Answers (λ u. open_of dto.student_id w ≡ 0) (check_proposal caller dto w) w
unfolding check_proposal assert_can_access
check_proposal-Answers caller dto w =
    let R : Unit {0} → Type 0 = λ u. open_of dto.student_id w ≡ 0 in
    let profile = find_first (is_live_profile dto.student_id) w.db.profiles in
    let rank_row = find_first (is_active_rank dto.proposed_rank_id) w.db.ranks in
    let others = find_first (is_open_for dto.student_id) w.db.proposals in
    resume-Answers w _ R (throw_if (not (can_access caller dto.student_id w.db)) _ w) _
      (throw_if-Answers _ _ w)
      λ u e. resume-Answers w _ R (or_throw profile _ w) _ (or_throw-Answers profile _ w) λ p e.
        resume-Answers w _ R (or_throw rank_row _ w) _ (or_throw-Answers rank_row _ w) λ rank e.
          resume-Answers w _ R
            (throw_if (leb rank.order_index (current_order p.current_belt_rank_id w.db)) _ w) _
            (throw_if-Answers _ _ w)
            λ u e. none_found others _ refl (throw_if-Answers (is_some others) _ w)
  where
    none_found :
        (o : Option PromotionProposal) (e : Error)
        → find_first (is_open_for dto.student_id) w.db.proposals ≡ o
        → Answers (λ u. is_some o ≡ false) (throw_if (is_some o) e w) w
        → Answers (λ u. open_of dto.student_id w ≡ 0) (throw_if (is_some o) e w) w
    none_found none e at h = (refl, count_where-none (is_open_for dto.student_id) w.db.proposals at)
    none_found (some p) e at h = h

ok-Answers :
    (P : Type 0) (out : Result (Unit {0}) × World) (w : World)
    → out.0 ≡ ok tt
    → Answers (λ u. P) out w
    → P
ok-Answers P (ok a, v) w p h = h.1
ok-Answers P (err e, v) w p h = absurd (ok-err tt e (sym p))

check_proposal-none :
    (caller : Caller) (dto : CreateProposalDto) (w : World)
    → (check_proposal caller dto w).0 ≡ ok tt
    → open_of dto.student_id w ≡ 0
check_proposal-none caller dto w passed =
    ok-Answers (open_of dto.student_id w ≡ 0) (check_proposal caller dto w) w passed
      (check_proposal-Answers caller dto w)

Move-IsRoomy :
    {s t : Site}
    → Move s t
    → ((student : ℕ) → creations student t.tasks ≤ 1)
    → IsRoomy s
    → IsRoomy t
Move-IsRoomy {s} (checks (creating caller dto) passed) apart h student =
    elim (Bool-cases (dto.student_id == student)) [
      | inr other ↦ let room = h student in ground (arith, room, other)
      | inl hit ↦
          let same : dto.student_id ≡ student = (==_iff dto.student_id student).0 hit in
          let none_open : open_of student s.world ≡ 0 =
            subst (λ k. open_of k s.world ≡ 0) same
              (check_proposal-none caller dto s.world (unfold check_task in passed)) in
          omega (arith, none_open, apart student)
    ]
Move-IsRoomy {s} (checks (editing caller k remark) passed) apart h student =
    omega (arith, h student)
Move-IsRoomy {s} (checks (reviewing caller k verdict remark) passed) apart h student =
    omega (arith, h student)
Move-IsRoomy {s} (writes before t after new_id now at) apart h student =
    let room = h student in
    let split = creations-split student before t after in
    let opens = run_task-opens t new_id now student s.world in
    omega (
      arith,
      subst (λ ts. open_of student s.world + creations student ts ≤ 1) at room,
      split,
      opens,
    )

Reach-IsRoomy : {s t : Site} → Reach s t → IsRoomy s → IsRoomy t
Reach-IsRoomy here h = h
Reach-IsRoomy (next before move apart) h = Move-IsRoomy move apart (Reach-IsRoomy before h)

-- Where no student has two pending proposals and no call is on its way, none has after whatever creations,
-- edits and reviews, overlapping ones too, as long as no student has two creations at once that have passed
-- their checks and are still to write.
pub Reach-HasOneOpen :
    {w : World} {t : Site}
    → Reach (record { world = w; tasks = [] }) t
    → HasOneOpen w.db
    → HasOneOpen t.world.db
Reach-HasOneOpen {w} {t} path h student =
    omega (arith, Reach-IsRoomy path (λ s. omega (arith, h s)) student)
