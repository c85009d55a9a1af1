-- ===== src/Spend/Recovery.antt =====
-- The saved answers of spend.rs: `job_recovery_policy`, `constrain_job_recovery_in`,
-- `save_recovery_in`, `expire_recovery`, `discard_recovery` and `purge_recovery`.
use symbiotic_foundation.Base.{
  ℕ, zero, suc, ◌+◌, String, Bool, false, ◌&&◌, ◌||◌, Option, none, some, List, [], ◌∷◌, min, ltb,
  leb, get_or, Key, ◌==◌, string_eq, contains, length, take, map, filter, is_some, if◌then◌else◌,
  is_empty,
}
use symbiotic_foundation.Base.Int.{ℤ}
use symbiotic_foundation.Base.Maybe.{option_eq}
use symbiotic_foundation.Core.Identity.{BindingIdentity}
use symbiotic_foundation.Jobs.Types.{JobScope}
use symbiotic_foundation.Spend.Result.{Result, ok, err, storage, conflict, ◌>>=◌, ok_or}
use symbiotic_foundation.Spend.Types.{SpendReceipt}
use symbiotic_foundation.Spend.Store.{Row, Db, find, update, latest, receipt_in}

-- What the query of `job_recovery_policy` selects of a job and its binding.
pub record JobRow : Type 0 where
  pub binding : Option String
  pub erased : Bool
  pub recovery_until : Option ℤ

-- What the ledger reads outside its tables: the tables of the job store, serde_json's reading of
-- an invocation and of a binding, the digest of an identity, and chrono.
pub record World : Type 0 where
  pub read_invocation : String → Option (JobScope × String)
  pub job_row : JobScope → String → Option JobRow
  pub read_binding : String → Option BindingIdentity
  pub identity_of : BindingIdentity → String → Result String
  pub from_millis : ℤ → Option ℕ
  pub add_duration : ℕ → ℕ → Option ℕ

abbrev pub earlier : Option ℕ → Option ℕ → Option ℕ
earlier (some a) (some b) = some (min a b)
earlier (some a) none = some a
earlier none b = b

-- `deadline.map_or(expires, |until| until.min(expires))`
abbrev pub until_of : Option ℕ → ℕ → ℕ
until_of none expires = expires
until_of (some until) expires = min until expires

abbrev pub is_due : ℕ → Option ℕ → Bool
is_due now none = false
is_due now (some until) = leb until now

module _ (w : World) where
  abbrev pub read_deadline : Option ℤ → Result (Option ℕ)
  read_deadline none = ok none
  read_deadline (some millis) = elim (w.from_millis millis) [
    | none ↦ err storage
    | some date ↦ ok (some date)
  ]

  unfoldable pub of_digest : String → String → JobRow → Result (Bool × Option ℕ)
  of_digest digest bound_invocation row =
      if digest == bound_invocation
      then (read_deadline row.recovery_until >>= λ deadline. ok (row.erased, deadline))
      else ok (false, none)

  -- A job with another identity says nothing of this invocation.
  unfoldable pub bound_policy : String → String → JobRow → Result (Bool × Option ℕ)
  bound_policy invocation bound_invocation row = do
    text ← ok_or row.binding storage
    identity ← ok_or (w.read_binding text) storage
    digest ← w.identity_of identity invocation
    of_digest digest bound_invocation row

  unfoldable pub job_recovery_policy : Option String → String → Result (Bool × Option ℕ)
  job_recovery_policy none bound_invocation = ok (false, none)
  job_recovery_policy (some invocation) bound_invocation = elim (w.read_invocation invocation) [
    | none ↦ ok (false, none)
    | some (scope, key) ↦ elim (w.job_row scope key) [
      | none ↦ ok (false, none)
      | some row ↦ bound_policy invocation bound_invocation row
    ]
  ]

-- A stored deadline is narrowed by the one of the job; none is made.
abbrev pub narrowed : Option ℕ → Option ℕ → Option ℕ
narrowed none job = none
narrowed (some until) none = some until
narrowed (some until) (some job) = some (min job until)

module _ {J : Type 0} where
  -- `SET recovery=NULL, recovery_expires_at=NULL`
  abbrev pub clear : Row J → Row J
  clear row = record row { recovery = none; recovery_expires_at = none }

  abbrev pub has_recovery : Row J → Bool
  has_recovery row = is_some row.recovery

  unfoldable pub narrow : List (Row J) → String → Bool → Option ℕ → ℕ → List (Row J)
  narrow rows reference prohibited deadline now =
      if prohibited || is_due now deadline then update rows reference clear else elim deadline [
        | none ↦ rows
        | some until ↦
            update rows reference (λ row. record row { recovery_expires_at = some until })
      ]

  unfoldable pub constrain_job_recovery_in :
      World → Db J → String → String → ℕ → Result ((Bool × Option ℕ) × Db J)
  constrain_job_recovery_in w db reference invocation now = do
    row ← ok_or (find db.receipts reference) storage
    (prohibited, job_deadline) ← job_recovery_policy w (some invocation) row.invocation
    ok (
      (prohibited, narrowed row.recovery_expires_at job_deadline),
      record db {
        receipts =
            narrow db.receipts reference prohibited (narrowed row.recovery_expires_at job_deadline)
              now;
      },
    )

  abbrev pub save_until : J → ℕ → Row J → Row J
  save_until value expires row = record row {
    recovery = some value;
    recovery_expires_at = some expires;
  }

  -- The first output of an explicit attempt is saved, unless its job forbids it.
  unfoldable pub save_first : World → Db J → String → J → ℕ → ℕ → Bool → Option ℕ → Result (Db J)
  save_first w db reference value retention now erased deadline = do
    expires ← ok_or (w.add_duration now retention) storage
    ok (
        if erased || is_due now deadline then db else record db {
          receipts = update db.receipts reference (save_until value (until_of deadline expires));
        })

module _ {J : Type 0} ⦃e : Key J⦄ where
  -- `seen` is the reading of the clock in `receipt_in`.
  unfoldable pub save_output :
      World → Db J → String → J → ℕ → ℕ → SpendReceipt J → Bool → Option ℕ → Result (Db J)
  save_output w db reference value retention now old erased deadline =
      if is_some old.attempt_limit
      then if is_some old.output
        then if old.recovery == some value then ok db else err conflict
        else save_first w db reference value retention now erased deadline
      else ok db

  unfoldable pub save_recovery_in :
      J → World → ℕ → Db J → String → Option J → ℕ → Option ℕ → Option String → ℕ → Result (Db J)
  save_recovery_in evidence w seen db reference output retention deadline invocation now =
      if output == some evidence then ok db else do
        old ← ok_or (receipt_in seen db reference) conflict
        (erased, job_deadline) ← job_recovery_policy w invocation old.reservation.invocation
        elim output [
          | none ↦ ok db
          | some value ↦
              save_output w db reference value retention now old erased
                (earlier deadline job_deadline)
        ]

module _ {J : Type 0} where
  -- `recovery IS NOT NULL AND recovery_expires_at<=?1`
  abbrev pub is_expired : ℕ → Row J → Bool
  is_expired now row = has_recovery row && is_due now row.recovery_expires_at

  abbrev pub date_of : Row J → ℕ
  date_of row = get_or row.recovery_expires_at 0

  -- `ORDER BY recovery_expires_at`
  unfoldable pub place_due : Row J → List (Row J) → List (Row J)
  place_due a [] = a ∷ []
  place_due a (b ∷ bs) = if ltb (date_of b) (date_of a) then b ∷ place_due a bs else a ∷ b ∷ bs

  unfoldable pub sort_due : List (Row J) → List (Row J)
  sort_due [] = []
  sort_due (row ∷ rows) = place_due row (sort_due rows)

  abbrev pub references : List (Row J) → List String
  references = map (λ row. row.reference)

  -- The references of one batch: at most 64, the earliest first.
  unfoldable pub batch : ℕ → List (Row J) → List String
  batch now rows = references (take 64 (sort_due (filter (is_expired now) rows)))

  unfoldable pub clear_each : List String → List (Row J) → List (Row J)
  clear_each cleared [] = []
  clear_each cleared (row ∷ rows) =
      (if contains row.reference cleared then clear row else row) ∷ clear_each cleared rows

  -- The loop of `expire_recovery`, with a bound on its turns; `none` when that is not enough.
  unfoldable pub expire_loop : ℕ → ℕ → List (Row J) → ℕ → Option (List (Row J) × ℕ)
  expire_loop zero now rows removed = none
  expire_loop (suc turns) now rows removed =
      let cleared = batch now rows in
      let rest = expire_loop turns now (clear_each cleared rows) (removed + length cleared) in
      if is_empty cleared then some (clear_each cleared rows, removed + length cleared) else rest

  unfoldable pub expire_recovery : ℕ → Db J → Option (Db J × ℕ)
  expire_recovery now db =
      elim (expire_loop (suc (length (filter (is_expired now) db.receipts))) now db.receipts 0) [
        | none ↦ none
        | some (rows, removed) ↦ some (record db { receipts = rows }, removed)
      ]

  unfoldable pub discard_recovery : Db J → String → String → Db J
  discard_recovery db account invocation = elim (latest db.receipts account invocation) [
    | none ↦ db
    | some row ↦ record db { receipts = update db.receipts row.reference clear }
  ]

  -- The references of the answers that `matches` selects; its first error ends the reading.
  unfoldable pub matching : (J → Result Bool) → List (Row J) → Result (List String)
  matching matches [] = ok []
  matching matches (row ∷ rows) = elim row.recovery [
    | none ↦ matching matches rows
    | some value ↦ do
      found ← matches value
      rest ← matching matches rows
      ok (if found then row.reference ∷ rest else rest)
  ]

  unfoldable pub clear_all : List String → List (Row J) → ℕ → List (Row J) × ℕ
  clear_all [] rows removed = (rows, removed)
  clear_all (reference ∷ rest) rows removed =
      clear_all rest (update rows reference clear)
        (removed + elim (find rows reference) [ none ↦ 0 | some _ ↦ 1 ])

  unfoldable pub purge_recovery : (J → Result Bool) → Db J → Result (Db J × ℕ)
  purge_recovery matches db = do
    selected ← matching matches db.receipts
    ok (
      record db { receipts = (clear_all selected db.receipts 0).0 },
      (clear_all selected db.receipts 0).1,
    )
