-- ===== src/Leaves/Decisions.antt =====
-- The life of a request in src/leaves/leaves.service.ts, for calls that overlap: `review` and `cancel` check a
-- request and later update it by its id alone, and between the two any other call may run.
use vovinam_api_node.Base.{
  ℕ, ◌≡◌, refl, sym, subst, true, false, Option, some, List, [], ◌∷◌, ◌++◌, arith, ◌==◌, ==_iff,
  is_some, find_first, find_unique, find_unique-key, find_unique-update, find_unique-append_some,
  Bool-cases, inl, inr, Text,
}
use vovinam_api_node.Schema.{Caller, LeaveRequest, Database}
use vovinam_api_node.Service.{
  World, Result, ok, err, ok-err, resume-db, resume-keeps, or_throw, or_throw-state,
}
use vovinam_api_node.Leaves.{
  leave_id, is_pending, CreateLeaveRequestDto, insert_leave, new_leave, same_session,
  session_conflict, write_leave, Decision, reviewed_row, cancelled_row, is_leave, check_review,
  write_leave_row, write_review, check_cancel, write_cancel,
}

-- The request k is there with the row r.
abbrev pub HasLeave : ℕ → LeaveRequest → Database → Type 0
HasLeave k r db = find_unique leave_id k db.leaves ≡ some r

-- A review or a cancellation that has checked its request, and has not yet written.
pub data Task : Type 0 where
  reviewing : Caller → (k : ℕ) → Decision → Option Text → Task
  cancelling : Caller → (k : ℕ) → Task

abbrev target : Task → ℕ
target (reviewing caller k decision remark) = k
target (cancelling caller k) = k

unfoldable pub check_task : Task → World → Result LeaveRequest × World
check_task (reviewing caller k decision remark) w = check_review caller k w
check_task (cancelling caller k) w = check_cancel caller k w

unfoldable pub run_task : Task → (now : ℕ) → World → World
run_task (reviewing caller k decision remark) now w =
    (write_review caller k decision remark now w).1
run_task (cancelling caller k) now w = (write_cancel caller k w).1

pub record Site : Type 0 where
  pub world : World
  pub tasks : List Task

-- The moves of the site, without the deletion by an administrator. `create` writes whatever it has checked
-- before.
pub data Move (s : Site) : Site → Type 0 where
  creates :
      (caller : Caller) (dto : CreateLeaveRequestDto) (new_id : ℕ)
      → Move s (record s { world = (session_conflict (write_leave new_id caller dto s.world)).1 })
  checks :
      (t : Task) (q : LeaveRequest)
      → (check_task t s.world).0 ≡ ok q
      → Move s (record s { tasks = t ∷ s.tasks })
  writes :
      (before : List Task) (t : Task) (after : List Task) (now : ℕ)
      → s.tasks ≡ before ++ t ∷ after
      → Move s (record { world = run_task t now s.world; tasks = before ++ after })

pub data Reach (s : Site) : Site → Type 0 where
  here : Reach s s
  next : {t u : Site} → Reach s t → Move t u → Reach s u

-- No task is about the request k.
abbrev pub Spares : ℕ → List Task → Type 0
Spares k [] = Unit
Spares k (t ∷ ts) = ((target t == k) ≡ false) × Spares k ts

Spares-split :
    (k : ℕ) (ts : List Task) (t : Task) (us : List Task)
    → Spares k (ts ++ t ∷ us)
    → ((target t == k) ≡ false) × Spares k (ts ++ us)
Spares-split k [] t us h = h
Spares-split k (x ∷ ts) t us h =
    let (other, rest) = Spares-split k ts t us h.1 in (other, (h.0, rest))

write_leave_row-HasLeave :
    (j k : ℕ) (r : LeaveRequest) (f : LeaveRequest → LeaveRequest) (w : World)
    → ((s : LeaveRequest) → (f s).id ≡ s.id)
    → (j == k) ≡ false
    → HasLeave k r w.db
    → HasLeave k r (write_leave_row j f w).1.db
unfolding write_leave_row
write_leave_row-HasLeave j k r f w kept other h =
    let its = find_unique-key leave_id k w.db.leaves r h in
    let missed : is_leave j r ≡ false = ground (arith, its, other, ==_iff r.id j, ==_iff j k) in
    let row = find_unique leave_id j w.db.leaves in
    resume-keeps (HasLeave k r) w (or_throw row _ w) _ (or_throw-state row _ w) h
      λ q. rw (find_unique-update leave_id (is_leave j) f kept k w.db.leaves, h, missed) refl

run_task-HasLeave :
    (t : Task) (now k : ℕ) (r : LeaveRequest) (w : World)
    → (target t == k) ≡ false
    → HasLeave k r w.db
    → HasLeave k r (run_task t now w).db
unfolding run_task write_review write_cancel
run_task-HasLeave (reviewing caller j decision remark) now k r w other h =
    let f = reviewed_row decision remark caller.id now in
    resume-db (HasLeave k r) _ (write_leave_row j f w) (λ q v. refl)
      (write_leave_row-HasLeave j k r f w (λ s. refl) other h)
run_task-HasLeave (cancelling caller j) now k r w other h =
    resume-db (HasLeave k r) _ (write_leave_row j cancelled_row w) (λ q v. refl)
      (write_leave_row-HasLeave j k r cancelled_row w (λ s. refl) other h)

-- A check that passes has found its request pending.
check_review-pending :
    (caller : Caller) (j : ℕ) (q r : LeaveRequest) (w : World)
    → (check_review caller j w).0 ≡ ok q
    → HasLeave j r w.db
    → is_pending r.status ≡ true
unfolding check_review
check_review-pending caller j q r w passed h = elim (Bool-cases (is_pending r.status)) [
  | inl pending ↦ pending
  | inr decided ↦ absurd (ok-err q _ (sym (rw (h, decided) at passed)))
]

check_cancel-pending :
    (caller : Caller) (j : ℕ) (q r : LeaveRequest) (w : World)
    → (check_cancel caller j w).0 ≡ ok q
    → HasLeave j r w.db
    → is_pending r.status ≡ true
unfolding check_cancel
check_cancel-pending caller j q r w passed h = elim (Bool-cases (is_pending r.status)) [
  | inl pending ↦ pending
  | inr decided ↦ absurd (ok-err q _ (sym (rw (h, decided) at passed)))
]

check_task-pending :
    (t : Task) (q r : LeaveRequest) (w : World)
    → (check_task t w).0 ≡ ok q
    → HasLeave (target t) r w.db
    → is_pending r.status ≡ true
unfolding check_task
check_task-pending (reviewing caller j decision remark) q r w passed h =
    check_review-pending caller j q r w passed h
check_task-pending (cancelling caller j) q r w passed h =
    check_cancel-pending caller j q r w passed h

insert_leave-HasLeave :
    (s : LeaveRequest) (k : ℕ) (r : LeaveRequest) (w : World)
    → HasLeave k r w.db
    → HasLeave k r (insert_leave s w).1.db
unfolding insert_leave
insert_leave-HasLeave s k r w h =
    elim (Bool-cases (is_some (find_unique leave_id s.id w.db.leaves))) [
      | inl taken ↦ rw taken h
      | inr free ↦ elim (Bool-cases (is_some (find_first (same_session s) w.db.leaves))) [
        | inl taken ↦ rw (free, taken) h
        | inr single ↦ rw (free, single) (find_unique-append_some leave_id k w.db.leaves s r h)
      ]
    ]

session_conflict-db {ℓ} :
    {A : Type ℓ} (P : Database → Type 0) (out : Result A × World)
    → P out.1.db
    → P (session_conflict out).1.db
session_conflict-db P (ok a, w) h = h
session_conflict-db P (err e, w) h = h

Move-HasLeave :
    {s t : Site} (k : ℕ) (r : LeaveRequest)
    → Move s t
    → is_pending r.status ≡ false
    → Spares k s.tasks
    → HasLeave k r s.world.db
    → Spares k t.tasks × HasLeave k r t.world.db
Move-HasLeave {s} k r (creates caller dto new_id) decided spared h = (
  spared,
  session_conflict-db (HasLeave k r) (write_leave new_id caller dto s.world) (
      resume-db (HasLeave k r) _ (insert_leave (new_leave new_id caller dto) s.world) (λ q v. refl)
        (insert_leave-HasLeave (new_leave new_id caller dto) k r s.world h)),
)
Move-HasLeave {s} k r (checks t q passed) decided spared h =
    let other : (target t == k) ≡ false = elim (Bool-cases (target t == k)) [
      | inr other ↦ other
      | inl same ↦
          let pending =
            check_task-pending t q r s.world passed
              (subst (λ j. HasLeave j r s.world.db) (sym ((==_iff (target t) k).0 same)) h) in
          absurd (ground (arith, pending, decided))
    ] in
    ((other, spared), h)
Move-HasLeave {s} k r (writes before t after now at) decided spared h =
    let (other, rest) = Spares-split k before t after (subst (Spares k) at spared) in
    (rest, run_task-HasLeave t now k r s.world other h)

Reach-both :
    {s t : Site} (k : ℕ) (r : LeaveRequest)
    → Reach s t
    → is_pending r.status ≡ false
    → Spares k s.tasks
    → HasLeave k r s.world.db
    → Spares k t.tasks × HasLeave k r t.world.db
Reach-both k r here decided spared h = (spared, h)
Reach-both k r (next before move) decided spared h =
    let (still, there) = Reach-both k r before decided spared h in
    Move-HasLeave k r move decided still there

-- A request that is approved, rejected or cancelled keeps its row, the reviewer and the note included, through
-- all creations, reviews and cancellations that follow, overlapping ones too, when no review or cancellation
-- that has checked the request before is still to write.
pub Reach-HasLeave :
    {s t : Site} (k : ℕ) (r : LeaveRequest)
    → Reach s t
    → Spares k s.tasks
    → HasLeave k r s.world.db
    → is_pending r.status ≡ false
    → HasLeave k r t.world.db
Reach-HasLeave k r path spared h decided = (Reach-both k r path decided spared h).1
