-- ===== src/Locks.antt =====
-- The lock files that processes serialise on: hub/src/locks.ts. A step is one call on the file system;
-- between two of them any other process may move, the clock may advance, and a process may die.
-- A file is created with its stamp in one step, stamps are well-formed, and a process makes one call at a
-- time. Sleeping and the deadline are left to the order of the steps.
pub mod Exclusion
pub mod Runs
use dev_loop.Common.{
  ℕ, suc, ◌+◌, Bool, true, false, not, ◌||◌, Option, none, some, ◌≡◌, ◌≢◌, ltb, eqb, if◌then◌else◌,
}

-- `LockInfo`, the stamp in a lock file.
pub record LockInfo : Type 0 where
  pub pid : ℕ
  pub at : ℕ

-- The lock file and the file of the mutex under which a stale lock is broken.
pub record Files : Type 0 where
  pub lock : Option LockInfo
  pub breaker : Option LockInfo

-- `isStale(readLock(path))`: the file is gone, its process is dead, or it is older than the policy.
abbrev pub is_stale : (stale_ms now : ℕ) → (ℕ → Bool) → Option LockInfo → Bool
is_stale stale_ms now alive none = true
is_stale stale_ms now alive (some h) = not (alive h.pid) || ltb (h.at + stale_ms) now

-- Where a process stands in `acquireLock`, or in the release that it returned.
pub data Pc : Type 0 where
  idle : Pc
  -- the head of the loop, before the exclusive creation of the lock file
  trying : Pc
  -- the file exists, before it is read
  blocked : Pc
  -- the file was stale, before the exclusive creation of the breaker's file
  breaking : Pc
  -- in the mutex, before the file is read again
  clearing : Pc
  -- it was stale again, before it is removed
  unlinking : Pc
  -- the `finally`, before the breaker's file is read
  closing : Pc
  -- it was the process's own, before it is removed
  leaving : Pc
  -- another process has the mutex, before its file is read
  break_busy : Pc
  -- it was stale, before it is removed
  break_stale : Pc
  -- the caller has the lock
  holding : Pc
  -- the release, after the file was read as the process's own, before it is removed
  releasing : Pc

abbrev stamp : ℕ → ℕ → Option LockInfo
stamp p now = some (record { pid = p; at = now })

-- Is a file the process's own.
abbrev pub is_own : ℕ → Option LockInfo → Bool
is_own p none = false
is_own p (some h) = eqb h.pid p

-- One step of process `p`.
pub data Move (stale_ms now : ℕ) (alive : ℕ → Bool) (p : ℕ) (fs : Files)
    : Pc → Files → Pc → Type 0 where
  begin : Move stale_ms now alive p fs idle fs trying
  take :
      fs.lock ≡ none
      → Move stale_ms now alive p fs trying (record fs { lock = stamp p now }) holding
  exists : fs.lock ≢ none → Move stale_ms now alive p fs trying fs blocked
  wait :
      is_stale stale_ms now alive fs.lock ≡ false → Move stale_ms now alive p fs blocked fs trying
  give_up :
      is_stale stale_ms now alive fs.lock ≡ false → Move stale_ms now alive p fs blocked fs idle
  judge :
      is_stale stale_ms now alive fs.lock ≡ true → Move stale_ms now alive p fs blocked fs breaking
  take_break :
      fs.breaker ≡ none
      → Move stale_ms now alive p fs breaking (record fs { breaker = stamp p now }) clearing
  busy_break : fs.breaker ≢ none → Move stale_ms now alive p fs breaking fs break_busy
  recheck :
      is_stale stale_ms now alive fs.lock ≡ true
      → Move stale_ms now alive p fs clearing fs unlinking
  readmit :
      is_stale stale_ms now alive fs.lock ≡ false → Move stale_ms now alive p fs clearing fs closing
  unlink : Move stale_ms now alive p fs unlinking (record fs { lock = none }) closing
  close_own : is_own p fs.breaker ≡ true → Move stale_ms now alive p fs closing fs leaving
  close_lost : is_own p fs.breaker ≡ false → Move stale_ms now alive p fs closing fs trying
  leave : Move stale_ms now alive p fs leaving (record fs { breaker = none }) trying
  break_wait :
      is_stale stale_ms now alive fs.breaker ≡ false
      → Move stale_ms now alive p fs break_busy fs trying
  judge_break :
      is_stale stale_ms now alive fs.breaker ≡ true
      → Move stale_ms now alive p fs break_busy fs break_stale
  unlink_break : Move stale_ms now alive p fs break_stale (record fs { breaker = none }) trying
  release_own : is_own p fs.lock ≡ true → Move stale_ms now alive p fs holding fs releasing
  release_lost : is_own p fs.lock ≡ false → Move stale_ms now alive p fs holding fs idle
  release : Move stale_ms now alive p fs releasing (record fs { lock = none }) idle

pub record System : Type 0 where
  pub files : Files
  pub now : ℕ
  pub alive : ℕ → Bool
  pub pc : ℕ → Pc

abbrev pub update {ℓ} : {A : Type ℓ} → (ℕ → A) → ℕ → A → ℕ → A
update f i a j = if eqb i j then a else f j

pub data Step (stale_ms : ℕ) (s : System) : System → Type 0 where
  tick : Step stale_ms s (record s { now = suc s.now })
  die : (p : ℕ) → Step stale_ms s (record s { alive = update s.alive p false })
  act :
      (p : ℕ) {fs : Files} {c : Pc}
      → s.alive p ≡ true
      → Move stale_ms s.now s.alive p s.files (s.pc p) fs c
      → Step stale_ms s (record s { files = fs; pc = update s.pc p c })

abbrev pub start : System
start = record {
  files = record { lock = none; breaker = none };
  now = 0;
  alive = λ p. true;
  pc = λ p. idle;
}

pub data Reach (stale_ms : ℕ) : System → Type 0 where
  at_start : Reach stale_ms start
  later : {s t : System} → Reach stale_ms s → Step stale_ms s t → Reach stale_ms t

-- The caller has the lock.
abbrev pub holds : Pc → Bool
holds holding = true
holds releasing = true
holds _ = false
