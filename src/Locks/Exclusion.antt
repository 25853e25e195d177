-- ===== src/Locks/Exclusion.antt =====
-- When the lock excludes: hub/src/locks.ts.
use dev_loop.Common.{ℕ, ◌+◌, Bool, true, false, Option, none, some, ◌≡◌, ◌≢◌, ltb}
use dev_loop.Locks.{
  LockInfo, Files, is_stale, is_own, Pc, clearing, unlinking, closing, leaving, break_stale, Move,
  take, take_break, recheck, close_own, release_own, System, Step, act, start, Reach, at_start,
  later, holds,
}

-- The process that a file names.
abbrev owner : Option LockInfo → Option ℕ
owner none = none
owner (some h) = some h.pid

-- The process is in the mutex of breakers.
abbrev in_mutex : Pc → Bool
in_mutex clearing = true
in_mutex unlinking = true
in_mutex closing = true
in_mutex leaving = true
in_mutex _ = false

abbrev at_unlink : Pc → Bool
at_unlink unlinking = true
at_unlink _ = false

abbrev pub at_break_stale : Pc → Bool
at_break_stale break_stale = true
at_break_stale _ = false

-- A step that checks a stale lock again finds a file.
abbrev pub IsFound :
    {stale_ms now : ℕ} {alive : ℕ → Bool} {p : ℕ} {fs fs' : Files} {c c' : Pc}
    → Move stale_ms now alive p fs c fs' c'
    → Type 0
IsFound {fs} (recheck e) = fs.lock ≢ none
IsFound _ = Unit {0}

abbrev pub IsFoundAt : {stale_ms : ℕ} {s t : System} → Step stale_ms s t → Type 0
IsFoundAt (act p live mv) = IsFound mv
IsFoundAt _ = Unit {0}

-- No live process's lock is older than the policy, and none is about to remove a breaker's file that it
-- judged stale.
pub record IsCalm (stale_ms : ℕ) (s : System) : Type 0 where
  pub young :
      (h : LockInfo)
      → s.files.lock ≡ some h
      → s.alive h.pid ≡ true
      → ltb (h.at + stale_ms) s.now ≡ false
  pub mutex_kept : (p : ℕ) → at_break_stale (s.pc p) ≡ false

-- Every state and every step of a run.
abbrev pub Calm : {stale_ms : ℕ} {s : System} → Reach stale_ms s → Type 0
Calm {stale_ms} at_start = IsCalm stale_ms start
Calm {stale_ms} (later {s} {t} r st) = Calm r × (IsFoundAt st × IsCalm stale_ms t)

-- A file of a dead process.
abbrev IsDead : (ℕ → Bool) → Option LockInfo → Type 0
IsDead alive f = (r : ℕ) × ((owner f ≡ some r) × (alive r ≡ false))

module _ (stale_ms now : ℕ) (alive : ℕ → Bool) (p : ℕ) (fs : Files) where
  -- The premise of a move, for the proofs that treat many moves alike.
  abbrev Guard : {fs' : Files} {c c' : Pc} → Move stale_ms now alive p fs c fs' c' → Type 0
  Guard (take e) = fs.lock ≡ none
  Guard (take_break e) = fs.breaker ≡ none
  Guard (recheck e) = is_stale stale_ms now alive fs.lock ≡ true
  Guard (release_own e) = is_own p fs.lock ≡ true
  Guard (close_own e) = is_own p fs.breaker ≡ true
  Guard _ = Unit {0}

record Inv (s : System) : Type 0 where
  own : (p : ℕ) → s.alive p ≡ true → holds (s.pc p) ≡ true → owner s.files.lock ≡ some p
  mutex : (p : ℕ) → s.alive p ≡ true → in_mutex (s.pc p) ≡ true → owner s.files.breaker ≡ some p
  doomed : (p : ℕ) → s.alive p ≡ true → at_unlink (s.pc p) ≡ true → IsDead s.alive s.files.lock

pub last-Calm : {stale_ms : ℕ} {s : System} (r : Reach stale_ms s) → Calm r → IsCalm stale_ms s
last-Calm at_start calm = calm
last-Calm (later r st) calm = calm.1.1
