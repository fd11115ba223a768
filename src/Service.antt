-- ===== src/Service.antt =====
-- What a service method is: a program over the database and the audit queue that may throw.
-- Writes made before a throw stay, but for those inside `$transaction`.
-- `record_entry` is `AuditService.record` of src/auth/audit/audit.service.ts.
pub mod Events
pub use Events.*
use vovinam_api_node.Base.{
  ℕ, ◌≡◌, ◌≢◌, refl, sym, ◌∙◌, Bool, true, false, Option, none, some, List, [], ◌∷◌, ◌++◌, leb,
  length, if◌then◌else◌, Text,
}
use vovinam_api_node.Schema.{Database, RegistrationStatus, LeaveStatus, ProposalStatus}
use vovinam_api_node.SharedStore.Memory.{Memory}

pub data Result {ℓ} (A : Type ℓ) : Type ℓ where
  ok : A → Result A
  err : Error → Result A

pub record World : Type 0 where
  pub db : Database
  pub audit_queue : List AuditEntry
  pub store : Memory
  pub mails : List Mail

abbrev pub Action {ℓ} : Type ℓ → Type ℓ
Action A = World → Result A × World

module _ {ℓ} {A : Type ℓ} where
  abbrev pub pure : A → Action A
  pure a w = (ok a, w)

  abbrev pub throw : Error → Action A
  throw e w = (err e, w)

-- What a bind does with the outcome of its first part.
abbrev pub resume {ℓ κ} :
    {A : Type ℓ} {B : Type κ} → Result A × World → (A → Action B) → Result B × World
resume (ok a, w) f = f a w
resume (err e, w) f = (err e, w)

infixl 5 ◌>>=◌ ◌>>◌
abbrev pub ◌>>=◌ {ℓ κ} : {A : Type ℓ} {B : Type κ} → Action A → (A → Action B) → Action B
◌>>=◌ m f w = resume (m w) f

abbrev pub ◌>>◌ {ℓ κ} : {A : Type ℓ} {B : Type κ} → Action A → Action B → Action B
m >> k = m >>= λ _. k

-- `if (condition) { … }`
abbrev pub when : Bool → Action (Unit {0}) → Action (Unit {0})
when true m = m
when false m = pure tt

-- `try { … } catch { throw error }`
abbrev pub caught {ℓ} : {A : Type ℓ} → Error → Result A × World → Result A × World
caught e (ok a, w) = (ok a, w)
caught e (err d, w) = (err e, w)

abbrev pub or_catch {ℓ} : {A : Type ℓ} → Action A → Error → Action A
or_catch m e w = caught e (m w)

-- An operation of the shared store.
abbrev pub on_store {ℓ} : {A : Type ℓ} → (Memory → Result A × Memory) → Action A
on_store f w = ((f w.store).0, record w { store = (f w.store).1 })

-- The private `notify` of AuthService: a failure of the mail port is logged and goes no further.
abbrev pub notify : Text → MailTemplate → Option Text → Action (Unit {0})
notify recipient template token w =
    let mail : Mail = record { recipient = recipient; template = template; token = token } in
    (ok tt, record w { mails = mail ∷ w.mails })

-- `if (condition) throw error`
abbrev pub throw_if : Bool → Error → Action (Unit {0})
throw_if c e w = (if c then err e else ok tt, w)

-- A `findUnique` or `findFirst` whose null answer throws.
abbrev pub or_throw {ℓ} : {A : Type ℓ} → Option A → Error → Action A
or_throw none e = throw e
or_throw (some a) e = pure a

abbrev pub gets {ℓ} : {A : Type ℓ} → (Database → A) → Action A
gets f w = (ok (f w.db), w)

abbrev pub modify : (Database → Database) → Action (Unit {0})
modify f w = (ok tt, record w { db = f w.db })

-- The end of a transaction that began at `before`.
abbrev pub commit {ℓ} : {A : Type ℓ} → Database → Result A × World → Result A × World
commit before (ok a, w) = (ok a, w)
commit before (err e, w) = (err e, record w { db = before })

-- `prisma.$transaction`: a throw inside takes the writes to the database back, and nothing else.
abbrev pub transaction {ℓ} : {A : Type ℓ} → Action A → Action A
transaction m w = commit w.db (m w)

-- A property of the database that a program keeps, its transaction keeps too.
pub commit-keeps {ℓ κ} :
    {A : Type ℓ} (P : Database → Type κ) (before : Database) (out : Result A × World)
    → P before
    → P out.1.db
    → P (commit before out).1.db
commit-keeps P before (ok a, w) h k = k
commit-keeps P before (err e, w) h k = h

-- A property of the database in which a program that does not throw ends.
abbrev pub Ensures {ℓ κ} : {A : Type ℓ} → (Database → Type κ) → Result A × World → Type κ
Ensures P (ok a, w) = P w.db
Ensures P (err e, w) = Unit

pub Ensures-of_db {ℓ κ} :
    {A : Type ℓ} (P : Database → Type κ) (out : Result A × World) → P out.1.db → Ensures P out
Ensures-of_db P (ok a, w) h = h
Ensures-of_db P (err e, w) h = tt

-- Of a transaction only the outcome that does not throw counts.
pub commit-Ensures {ℓ κ} :
    {A : Type ℓ} (P : Database → Type κ) (before : Database) (out : Result A × World)
    → P before
    → Ensures P out
    → P (commit before out).1.db
commit-Ensures P before (ok a, w) h k = k
commit-Ensures P before (err e, w) h k = h

pub ok-err {ℓ} : {A : Type ℓ} (a : A) (e : Error) → ok a ≢ err e
ok-err a e p = cc

-- Of a refusal nothing has to be ensured.
pub refused-Ensures {ℓ κ} :
    {A : Type ℓ} (P : Database → Type κ) (out : Result A × World) (e : Error)
    → out.0 ≡ err e
    → Ensures P out
refused-Ensures P (ok a, w) e p = absurd (ok-err a e p)
refused-Ensures P (err d, w) e p = tt

-- A refusal leaves the world as it was.
abbrev pub IsAtomic {ℓ} : {A : Type ℓ} → Result A × World → World → Type ℓ
IsAtomic out w = (e : Error) → out.0 ≡ err e → out.1 ≡ w

module _ {ℓ} {A : Type ℓ} where
  pub or_throw-state : (o : Option A) (e : Error) (w : World) → (or_throw o e w).1 ≡ w
  or_throw-state none e w = refl
  or_throw-state (some a) e w = refl

-- A bind whose first part only reads.
module _ {ℓ κ} {A : Type ℓ} {B : Type κ} (w : World) where
  pub resume-state :
      (out : Result A × World) (f : A → Action B)
      → out.1 ≡ w
      → ((a : A) → (f a w).1 ≡ w)
      → (resume out f).1 ≡ w
  resume-state (ok a, v) f h k = rw h (k a)
  resume-state (err e, v) f h k = h

  pub resume-IsAtomic :
      (out : Result A × World) (f : A → Action B)
      → out.1 ≡ w
      → ((a : A) → IsAtomic (f a w) w)
      → IsAtomic (resume out f) w
  resume-IsAtomic (ok a, v) f h k = rw h (k a)
  resume-IsAtomic (err e, v) f h k = λ d p. h

  -- A bind whose second part does not refuse.
  pub then-IsAtomic :
      (out : Result A × World) (f : A → Action B)
      → IsAtomic out w
      → ((a : A) (v : World) → (b : B) × ((f a v).0 ≡ ok b))
      → IsAtomic (resume out f) w
  then-IsAtomic (ok a, v) f h k = λ d p. absurd (ok-err (k a v).0 d (sym (k a v).1 ∙ p))
  then-IsAtomic (err e, v) f h k = λ d p. h e refl

-- What follows a transaction only audits.
pub resume-db {ℓ κ} :
    {A : Type ℓ} {B : Type κ} (P : Database → Type 0) (f : A → World → Result B × World)
    (out : Result A × World)
    → ((a : A) (w : World) → (f a w).1.db ≡ w.db)
    → P out.1.db
    → P (resume out f).1.db
resume-db P f (ok a, w) same h = rw (same a w) h
resume-db P f (err e, w) same h = h

-- What follows a part that only reads.
pub resume-keeps {ℓ κ} :
    {A : Type ℓ} {B : Type κ} (P : Database → Type 0) (w : World) (out : Result A × World)
    (f : A → Action B)
    → out.1 ≡ w
    → P w.db
    → ((a : A) → P (f a w).1.db)
    → P (resume out f).1.db
resume-keeps P w (ok a, v) f same h k = rw same (k a)
resume-keeps P w (err e, v) f same h k = rw same h

-- A part that only reads, and what its answer satisfies.
abbrev pub Answers {ℓ} : {A : Type ℓ} → (A → Type 0) → Result A × World → World → Type 0
Answers Q (ok a, v) w = (v ≡ w) × Q a
Answers Q (err e, v) w = v ≡ w

pub throw_if-Answers :
    (c : Bool) (e : Error) (w : World) → Answers (λ u. c ≡ false) (throw_if c e w) w
throw_if-Answers true e w = refl
throw_if-Answers false e w = (refl, refl)

pub or_throw-Answers :
    {A : Type 0} (o : Option A) (e : Error) (w : World)
    → Answers (λ a. o ≡ some a) (or_throw o e w) w
or_throw-Answers none e w = refl
or_throw-Answers (some a) e w = (refl, refl)

module _ {ℓ κ} {A : Type ℓ} {B : Type κ} (w : World) (Q : A → Type 0) where
  pub resume-Answers :
      (R : B → Type 0) (out : Result A × World) (f : A → Action B)
      → Answers Q out w
      → ((a : A) → Q a → Answers R (f a w) w)
      → Answers R (resume out f) w
  resume-Answers R (ok a, v) f h k = rw h.0 (k a h.1)
  resume-Answers R (err e, v) f h k = h

  pub resume-Ensures :
      (P : Database → Type 0) (out : Result A × World) (f : A → Action B)
      → Answers Q out w
      → ((a : A) → Q a → Ensures P (f a w))
      → Ensures P (resume out f)
  resume-Ensures P (ok a, v) f h k = rw h.0 (k a h.1)
  resume-Ensures P (err e, v) f h k = tt

-- A bind whose second part keeps what the first ensures.
pub then-Ensures {ℓ κ} :
    {A : Type ℓ} {B : Type κ} (P : Database → Type 0) (out : Result A × World) (f : A → Action B)
    → ((a : A) (v : World) → P v.db → Ensures P (f a v))
    → Ensures P out
    → Ensures P (resume out f)
then-Ensures P (ok a, v) f k h = k a v h
then-Ensures P (err e, v) f k h = tt

-- The same, where the second part ensures something else.
pub chain-Ensures {ℓ κ} :
    {A : Type ℓ} {B : Type κ} (P Q : Database → Type 0) (out : Result A × World) (f : A → Action B)
    → Ensures P out
    → ((a : A) (v : World) → P v.db → Ensures Q (f a v))
    → Ensures Q (resume out f)
chain-Ensures P Q (ok a, v) f h k = k a v h
chain-Ensures P Q (err e, v) f h k = tt

-- Of a transaction or a `try` that does not throw, what its body ensures.
pub commit-then {ℓ} :
    {A : Type ℓ} (P : Database → Type 0) (before : Database) (out : Result A × World)
    → Ensures P out
    → Ensures P (commit before out)
commit-then P before (ok a, v) h = h
commit-then P before (err e, v) h = tt

pub caught-then {ℓ} :
    {A : Type ℓ} (P : Database → Type 0) (e : Error) (out : Result A × World)
    → Ensures P out
    → Ensures P (caught e out)
caught-then P e (ok a, v) h = h
caught-then P e (err d, v) h = tt

-- What is ensured holds of a program that has answered.
pub ok-Ensures {ℓ} :
    {A : Type ℓ} (P : Database → Type 0) (out : Result A × World) (a : A)
    → out.0 ≡ ok a
    → Ensures P out
    → P out.1.db
ok-Ensures P (ok x, v) a p h = h
ok-Ensures P (err e, v) a p h = absurd (ok-err a e (sym p))

-- `MAX_QUEUE_SIZE`
abbrev pub max_queue_size : ℕ
max_queue_size = 10000

unfoldable pub push_entry : AuditEntry → List AuditEntry → List AuditEntry
push_entry entry queue = if leb max_queue_size (length queue) then queue else queue ++ entry ∷ []

abbrev pub record_entry : Option ℕ → AuditEvent → Bool → Action (Unit {0})
record_entry user event success w =
    let entry : AuditEntry = record { user_id = user; event = event; success = success } in
    (ok tt, record w { audit_queue = push_entry entry w.audit_queue })
