-- ===== src/Locks/Runs.antt =====
-- Runs of processes on one lock file: hub/src/locks.ts.
use dev_loop.Common.{
  ℕ, ◌+◌, true, false, none, some, ◌≡◌, ◌≢◌, arith, ltb, eqb, Bool-cases, inl, inr, refl,
}
use dev_loop.Locks.{
  LockInfo, Files, Pc, holding, Move, begin, take, exists, judge, take_break, recheck, unlink,
  close_own, leave, release_own, release, System, update, die, act, start, Reach, at_start, later,
}
use dev_loop.Locks.Exclusion.{IsFound, Calm, at_break_stale, last-Calm}

-- A calm run in which the clock stands.
abbrev Quiet : System → Type 0
Quiet s = (r : Reach 5 s) × ((Calm r) × (s.now ≡ 0))

young_at_0 :
    (s : System)
    → s.now ≡ 0
    → (h : LockInfo) → s.files.lock ≡ some h
    → s.alive h.pid ≡ true
    → ltb (h.at + 5) s.now ≡ false
young_at_0 s zero h e live = rw zero (ground (arith))

none_breaking :
    (f : ℕ → Pc) (p : ℕ) (c : Pc)
    → ((q : ℕ) → at_break_stale (f q) ≡ false)
    → at_break_stale c ≡ false
    → (q : ℕ) → at_break_stale (update f p c q) ≡ false
none_breaking f p c others here q = elim (Bool-cases (eqb p q)) [
  | inl same ↦ rw same here
  | inr other ↦ rw other (others q)
]

go :
    {s : System} (p : ℕ) {fs : Files} {c : Pc}
    → Reach 5 s
    → s.alive p ≡ true
    → Move 5 s.now s.alive p s.files (s.pc p) fs c
    → Reach 5 (record s { files = fs; pc = update s.pc p c })
go p r live mv = later r (act p live mv)

there : {h : LockInfo} → some h ≢ none
there e = absurd (cc e)

at_rest : Quiet start
at_rest = (at_start, (record { young = young_at_0 start refl; mutex_kept = λ p. refl }, refl))

moves :
    {s : System} (p : ℕ) {fs : Files} {c : Pc}
    → Quiet s
    → s.alive p ≡ true
    → (mv : Move 5 s.now s.alive p s.files (s.pc p) fs c) → IsFound mv
    → at_break_stale c ≡ false
    → Quiet (record s { files = fs; pc = update s.pc p c })
moves {s} p {fs} {c} (r, (calm, zero)) live mv found kept = (
  later r (act p live mv),
  (
    (
      calm,
      (
        found,
        record {
          young = young_at_0 (record s { files = fs; pc = update s.pc p c }) zero;
          mutex_kept = none_breaking s.pc p c (last-Calm r calm).mutex_kept kept;
        },
      ),
    ),
    zero,
  ),
)

dies : {s : System} (p : ℕ) → Quiet s → Quiet (record s { alive = update s.alive p false })
dies {s} p (r, (calm, zero)) = (
  later r (die p),
  (
    (
      calm,
      (
        tt,
        record {
          young = young_at_0 (record s { alive = update s.alive p false }) zero;
          mutex_kept = (last-Calm r calm).mutex_kept;
        },
      ),
    ),
    zero,
  ),
)

-- Process 1 takes the lock and dies, and process 2 breaks it and has it, while 3 is about to try.
abbrev broken : (s : System) × Quiet s
broken = (
  _,
  let taken = moves 1 (moves 1 at_rest refl begin tt refl) refl (take refl) tt refl in
      let trying_2 = moves 2 (moves 3 (dies 1 taken) refl begin tt refl) refl begin tt refl in
      let judged =
        moves 2 (moves 2 trying_2 refl (exists there) tt refl) refl (judge refl) tt refl in
      let mutexed = moves 2 judged refl (take_break refl) tt refl in
      let checked = moves 2 mutexed refl (recheck refl) there refl in
      let cleared = moves 2 (moves 2 checked refl unlink tt refl) refl (close_own refl) tt refl in
      moves 2 (moves 2 cleared refl leave tt refl) refl (take refl) tt refl,
)

-- Process 1 releases the lock between the failed creation of 2 and the reading by 2, which then takes the
-- absent file for a stale one; 3 takes the lock before 2 removes it.
abbrev raced : (s : System) × Reach 5 s
raced = (
  _,
  let taken = go 1 (go 1 at_start refl begin) refl (take refl) in
      let failed = go 2 (go 2 taken refl begin) refl (exists there) in
      let freed = go 1 (go 1 failed refl (release_own refl)) refl release in
      let mutexed = go 2 (go 2 freed refl (judge refl)) refl (take_break refl) in
      let checked = go 2 mutexed refl (recheck refl) in
      let taken_3 = go 3 (go 3 checked refl begin) refl (take refl) in
      let cleared = go 2 (go 2 taken_3 refl unlink) refl (close_own refl) in
      go 2 (go 2 cleared refl leave) refl (take refl),
)

two_holders : (raced.0.pc 2 ≡ holding) × (raced.0.pc 3 ≡ holding)
two_holders = (refl, refl)
