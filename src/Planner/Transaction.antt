-- ===== src/Planner/Transaction.antt =====
-- src/planner/transaction.rs: the state machine of the one transaction of a connection.
use sql.Common.{
  ℕ, ◌+◌, ◌≡◌, ◌≢◌, refl, arith, List, [], ◌∷◌, Option, none, some, Bool, true, false,
  if◌then◌else◌,
}
use sql.Common.Bytes.{Bytes}

-- The number of rows of each table, by the table's name.
pub record TxnSnapshot : Type 0 where
  pub row_counts : List (Bytes × ℕ)

pub data TxnState : Type 0 where
  idle active : TxnState

pub record TransactionManager : Type 0 where
  pub state : TxnState
  pub snapshot : Option TxnSnapshot
  pub txn_id : ℕ

pub data TxnError : Type 0 where
  already_active no_active no_snapshot : TxnError

pub data Outcome (A : Type 0) : Type 0 where
  ok : A → Outcome A
  err : TxnError → Outcome A

unfoldable pub new : TransactionManager
new = record { state = idle; snapshot = none; txn_id = 0 }

abbrev pub is_active_state : TxnState → Bool
is_active_state idle = false
is_active_state active = true

unfoldable pub is_active : TransactionManager → Bool
is_active m = is_active_state m.state

-- `txn_id += 1` is an addition of 64 bits, which no run overflows.
unfoldable pub begin :
    List (Bytes × ℕ) → TransactionManager → Outcome (Unit {0}) × TransactionManager
begin row_counts m = if is_active_state m.state then (err already_active, m) else (
  ok tt,
  record {
    state = active;
    snapshot = some (record { row_counts = row_counts });
    txn_id = m.txn_id + 1;
  },
)

unfoldable pub commit : TransactionManager → Outcome (Unit {0}) × TransactionManager
commit m =
    if is_active_state m.state
    then (ok tt, record m { state = idle; snapshot = none })
    else (err no_active, m)

-- `self.snapshot.take().ok_or("no snapshot")?`.
unfoldable pub take_snapshot :
    Option TxnSnapshot → TransactionManager → Outcome TxnSnapshot × TransactionManager
take_snapshot none m = (err no_snapshot, m)
take_snapshot (some snap) m = (ok snap, record m { state = idle; snapshot = none })

unfoldable pub rollback : TransactionManager → Outcome TxnSnapshot × TransactionManager
unfolding take_snapshot
rollback m = if is_active_state m.state then take_snapshot m.snapshot m else (err no_active, m)

-- The calls, and the managers that they reach.
pub data Call : Type 0 where
  call_begin : List (Bytes × ℕ) → Call
  call_commit call_rollback : Call

unfoldable pub apply : Call → TransactionManager → TransactionManager
apply (call_begin row_counts) m = (begin row_counts m).1
apply call_commit m = (commit m).1
apply call_rollback m = (rollback m).1

unfoldable pub run : List Call → TransactionManager
unfolding apply
run [] = new
run (c ∷ cs) = apply c (run cs)

-- A snapshot is kept exactly while a transaction is active.
unfoldable pub IsConsistent : TxnState → Option TxnSnapshot → Type 0
IsConsistent idle o = o ≡ none
IsConsistent active o = o ≢ none

step_fields :
    (c : Call) (s : TxnState) (o : Option TxnSnapshot) (i : ℕ)
    → IsConsistent s o
    → (let m : TransactionManager = record { state = s; snapshot = o; txn_id = i } in
        IsConsistent (apply c m).state (apply c m).snapshot)
unfolding apply begin commit rollback IsConsistent take_snapshot
step_fields (call_begin rc) idle o i h = ground arith
step_fields (call_begin rc) active o i h = h
step_fields call_commit idle o i h = h
step_fields call_commit active o i h = refl
step_fields call_rollback idle o i h = h
step_fields call_rollback active none i h = absurd (h refl)
step_fields call_rollback active (some snap) i h = refl

-- In every manager that calls of begin, commit and rollback reach, a snapshot is kept exactly while
-- a transaction is active.
pub run-IsConsistent : (cs : List Call) → IsConsistent (run cs).state (run cs).snapshot
unfolding run new IsConsistent
run-IsConsistent [] = refl
run-IsConsistent (c ∷ cs) =
    step_fields c (run cs).state (run cs).snapshot (run cs).txn_id (run-IsConsistent cs)

no_snapshot_fields :
    (s : TxnState) (o : Option TxnSnapshot) (i : ℕ)
    → IsConsistent s o
    → (rollback (record { state = s; snapshot = o; txn_id = i })).0 ≢ err no_snapshot
unfolding rollback take_snapshot IsConsistent
no_snapshot_fields idle o i h = ground arith
no_snapshot_fields active none i h = absurd (h refl)
no_snapshot_fields active (some snap) i h = ground arith

-- No run of begin, commit and rollback ends where a rollback would fail for want of a snapshot.
rollback_has_snapshot : (cs : List Call) → (rollback (run cs)).0 ≢ err no_snapshot
rollback_has_snapshot cs =
    no_snapshot_fields (run cs).state (run cs).snapshot (run cs).txn_id (run-IsConsistent cs)

rollback-begin_fields :
    (rc : List (Bytes × ℕ)) (s : TxnState) (o : Option TxnSnapshot) (i : ℕ)
    → IsConsistent s o
    → is_active_state s ≡ false
    → (let m : TransactionManager = record { state = s; snapshot = o; txn_id = i } in
        rollback (begin rc m).1
        ≡ (ok (record { row_counts = rc }), record m { txn_id = m.txn_id + 1 }))
unfolding rollback take_snapshot begin IsConsistent
rollback-begin_fields rc idle o i h e = rw h refl
rollback-begin_fields rc active o i h e = absurd (ground arith)

-- After any calls that leave no transaction active, a rollback right after a begin answers the row
-- counts that the begin was given, and leaves the manager as it was but for the new number.
pub rollback-begin :
    (cs : List Call) (rc : List (Bytes × ℕ))
    → is_active (run cs) ≡ false
    → rollback (begin rc (run cs)).1
      ≡ (ok (record { row_counts = rc }), record (run cs) { txn_id = (run cs).txn_id + 1 })
unfolding is_active
rollback-begin cs rc e =
    rollback-begin_fields rc (run cs).state (run cs).snapshot (run cs).txn_id (run-IsConsistent cs)
      e
