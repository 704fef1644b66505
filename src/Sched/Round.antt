-- ===== src/Sched/Round.antt =====
-- `switch_proc` of kernel/process/scheduler.c, and the places of the table in cyclic order.
use native.Mathlib.Nat.{mod-add-mod, mod-eq_of_lt, mod-eq-sub-mod, mod-lt}
use native.Mathlib.Decide.{dec_lt}
use craybond_os.Base.{
  ℕ, zero, suc, ◌+◌, ◌-◌, ◌%◌, ◌≤◌, ◌<◌, ◌≡◌, ◌≢◌, refl, ◌⊎◌, inl, inr, Bool, true, false, arith,
  Bool-cases, ◌∙◌, ap, ==_ne, ==_refl,
}
use craybond_os.Sched.{
  Scheduler, is_ready, Scan, found, around, scan, After, resume, return, after, switch_proc,
}

-- The process `k` places behind the current one, and whether it is ready.
abbrev pub place : Scheduler → ℕ → ℕ
place s k = (s.current_proc + k) % s.proc_count

abbrev pub ready_at : Scheduler → ℕ → Bool
ready_at s k = is_ready (s.processes (place s k)).state

-- The places that the loop looks at: all but the current process, which is looked at only if there
-- is no other.
abbrev pub IsLooked : Scheduler → ℕ → Type 0
IsLooked s i = (0 < i) × ((i < s.proc_count) ⊎ (i ≡ 1))

pub data ScanResult (s : Scheduler) : Scan → Type 0 where
  first :
      (k : ℕ)
      → IsLooked s k
      → ready_at s k ≡ true
      → ((i : ℕ) → 0 < i → i < k → ready_at s i ≡ false)
      → ScanResult s (found (place s k))
  nobody : ((i : ℕ) → IsLooked s i → ready_at s i ≡ false) → ScanResult s around

module _ (c n : ℕ) (inside : c < n) where
  no_return : (m : ℕ) → 0 < m → m < n → (c + m) % n ≢ c
  no_return m pos less = elim (dec_lt (c + m) n) [
    | yes p ↦ omega (arith, mod-eq_of_lt p)
    | no p ↦ omega (
      arith,
      mod-eq-sub-mod {n = c + m} {m = n} (omega arith),
      mod-eq_of_lt {n = c + m - n} {m = n} (omega arith),
    )
  ]

  full_turn : (c + n) % n ≡ c
  full_turn =
      mod-eq-sub-mod {n = c + n} {m = n} (omega arith)
      ∙ mod-eq_of_lt {n = c + n - n} {m = n} (omega arith)
      ∙ omega arith

module _ (s : Scheduler) (inside : s.current_proc < s.proc_count) where
  next_place : (j : ℕ) → (place s j + 1) % s.proc_count ≡ place s (j + 1)
  next_place j =
      mod-add-mod (s.current_proc + j) s.proc_count 1 ∙ ap (λ t. t % s.proc_count) (omega arith)

  -- Where no other process is left, the loop is back at the current one.
  back : (j : ℕ) → IsLooked s j → s.proc_count ≤ j + 1 → place s (j + 1) ≡ s.current_proc
  back j (pos, inl less) all =
      let e : j + 1 ≡ s.proc_count = omega arith in
      rw e (full_turn s.current_proc s.proc_count inside)
  back j (pos, inr one) all = elim (dec_lt 1 s.proc_count) [
    | yes p ↦
        let e : j + 1 ≡ s.proc_count = omega arith in
        rw e (full_turn s.current_proc s.proc_count inside)
    | no p ↦ omega (arith, mod-lt (s.current_proc + (j + 1)) {m = s.proc_count} (omega arith))
  ]

  extend :
      (j : ℕ)
      → ready_at s j ≡ false
      → ((i : ℕ) → 0 < i → i < j → ready_at s i ≡ false)
      → (i : ℕ) → 0 < i
      → i < j + 1
      → ready_at s i ≡ false
  extend j r before i pos less = elim (dec_lt i j) [
    | yes p ↦ before i pos p
    | no p ↦ let e : i ≡ j = omega arith in rw e r
  ]

  all_looked :
      (j : ℕ)
      → ((i : ℕ) → 0 < i → i < j + 1 → ready_at s i ≡ false)
      → 0 < j
      → s.proc_count ≤ j + 1
      → (i : ℕ) → IsLooked s i
      → ready_at s i ≡ false
  all_looked j before pos all i (p, inl less) = before i p (omega arith)
  all_looked j before pos all i (p, inr one) = before i p (omega arith)

  pub scan-ScanResult :
      (fuel j : ℕ)
      → IsLooked s j
      → ((i : ℕ) → 0 < i → i < j → ready_at s i ≡ false)
      → s.proc_count < fuel + j
      → ScanResult s (scan fuel s (place s j))
  unfolding scan
  scan-ScanResult zero j look before fuel =
      absurd (elim look.1 [ inl less ↦ omega arith | inr one ↦ omega arith ])
  scan-ScanResult (suc f) j look before fuel = elim (Bool-cases (ready_at s j)) [
    | inl r ↦ rw r (first j look r before)
    | inr r ↦
        rw (r, next_place j)
          (elim (dec_lt (j + 1) s.proc_count) [
            | yes p ↦
                rw
                  (==_ne (place s (j + 1)) s.current_proc
                    (no_return s.current_proc s.proc_count inside (j + 1) (omega arith) p))
                  (scan-ScanResult f (j + 1) (omega arith, inl p) (extend j r before) (omega arith))
            | no p ↦
                let all : s.proc_count ≤ j + 1 = omega arith in
                rw (back j look all, ==_refl s.current_proc)
                  (nobody (all_looked j (extend j r before) look.0 all))
          ])
  ]

-- The ways in which `switch_proc` may end.
pub data SwitchResult (s : Scheduler) : Scheduler × After → Type 0 where
  -- The first ready process behind the current one runs on.
  switched :
      (k : ℕ)
      → IsLooked s k
      → ready_at s k ≡ true
      → ((i : ℕ) → 0 < i → i < k → ready_at s i ≡ false)
      → SwitchResult s (record s { current_proc = place s k }, resume (place s k))
  -- No process that the loop looks at is ready, and the caller goes on.
  stayed : ((i : ℕ) → IsLooked s i → ready_at s i ≡ false) → SwitchResult s (s, return)

pub after-SwitchResult : {s : Scheduler} {r : Scan} → ScanResult s r → SwitchResult s (after s r)
unfolding after
after-SwitchResult (first k look r before) = switched k look r before
after-SwitchResult (nobody none_ready) = stayed none_ready

-- With the current process in the table, `switch_proc` ends. It resumes the first ready process
-- behind the current one in cyclic order, and makes it the current one; only if none of the others
-- is ready it returns with nothing changed.
pub switch_proc-SwitchResult :
    (s : Scheduler) → s.current_proc < s.proc_count → SwitchResult s (switch_proc s)
unfolding switch_proc
switch_proc-SwitchResult s inside = rw (==_ne s.proc_count 0 (omega arith)) (
    after-SwitchResult (
      scan-ScanResult s inside (suc s.proc_count) 1 (omega arith, inr refl)
        (λ i pos less. absurd (omega arith)) (omega arith)))
