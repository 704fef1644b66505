-- ===== src/Sched/Fair.antt =====
-- Repeated calls of `switch_proc` of kernel/process/scheduler.c, by the timer or by a process that
-- yields.
use native.Mathlib.Nat.{mod-add-mod, mod-lt, mod-eq_of_lt, mod-eq-sub-mod}
use native.Mathlib.Decide.{dec_lt}
use craybond_os.Base.{
  ℕ, zero, suc, ◌+◌, ◌-◌, ◌%◌, ◌≤◌, ◌<◌, ◌≡◌, refl, ap, inl, inr, true, arith, ◌∙◌, subst,
  if◌then◌else◌, ltb, lt→ltb, ltb_ge, ◌≢◌,
}
use craybond_os.Sched.{Scheduler, is_ready, After, resume, switch_proc}
use craybond_os.Sched.Round.{
  place, ready_at, IsLooked, SwitchResult, switched, stayed, switch_proc-SwitchResult,
}

-- Within `n` calls of `switch_proc`, one after the other, the process `p` runs on.
pub data Resumes (p : ℕ) : ℕ → Scheduler → Type 0 where
  now : {n : ℕ} {s t : Scheduler} → switch_proc s ≡ (t, resume p) → Resumes p (suc n) s
  later :
      {n q : ℕ} {s t : Scheduler}
      → switch_proc s ≡ (t, resume q)
      → Resumes p n t
      → Resumes p (suc n) s

-- The scheduler after a switch to the place `k`.
abbrev moved : Scheduler → ℕ → Scheduler
moved s k = record s { current_proc = place s k }

module _ (s : Scheduler) (inside : s.current_proc < s.proc_count) where
  moved-place : (k d : ℕ) → k < d → place (moved s k) (d - k) ≡ place s d
  moved-place k d less =
      mod-add-mod (s.current_proc + k) s.proc_count (d - k)
      ∙ ap (λ t. t % s.proc_count) (omega arith)

  moved-inside : (k : ℕ) → place s k < s.proc_count
  moved-inside k = mod-lt (s.current_proc + k) {m = s.proc_count} (omega arith)

  moved-IsLooked : (k d : ℕ) → 0 < k → k < d → IsLooked s d → IsLooked (moved s k) (d - k)
  moved-IsLooked k d pos less (p, inl q) = (omega arith, inl (omega arith))
  moved-IsLooked k d pos less (p, inr one) = absurd (omega arith)

Resumes-first :
    (n : ℕ)
    → ((d : ℕ) (t : Scheduler)
        → t.current_proc < t.proc_count
        → IsLooked t d
        → ready_at t d ≡ true
        → d ≤ n
        → Resumes (place t d) n t)
    → (d : ℕ) (s : Scheduler) {r : Scheduler × After} → s.current_proc < s.proc_count
    → IsLooked s d
    → ready_at s d ≡ true
    → d ≤ suc n
    → SwitchResult s r
    → switch_proc s ≡ r
    → Resumes (place s d) (suc n) s
Resumes-first n rest d s inside look r bound (switched k (pos, w) q before) e = elim (dec_lt d k) [
  | yes p ↦ absurd (cc (before d look.0 p))
  | no p ↦ elim (dec_lt k d) [
    | yes less ↦ later e (
        subst (λ m. Resumes m n (moved s k)) (moved-place s inside k d less)
          (rest (d - k) (moved s k) (moved-inside s inside k)
            (moved-IsLooked s inside k d pos less look)
            (ap (λ m. is_ready (s.processes m).state) (moved-place s inside k d less) ∙ r)
            (omega arith)))
    | no less ↦
        let same : k ≡ d = omega arith in
        now (subst (λ m. switch_proc s ≡ (moved s k, resume (place s m))) same e)
  ]
]
Resumes-first n rest d s inside look r bound (stayed none_ready) e = absurd (cc (none_ready d look))

Resumes-place :
    (n d : ℕ) (s : Scheduler)
    → s.current_proc < s.proc_count
    → IsLooked s d
    → ready_at s d ≡ true
    → d ≤ n
    → Resumes (place s d) n s
Resumes-place zero d s inside look r bound = absurd (omega (arith, look.0))
Resumes-place (suc n) d s inside look r bound =
    Resumes-first n (Resumes-place n) d s inside look r bound (switch_proc-SwitchResult s inside)
      refl

distance : (s : Scheduler) (p : ℕ) → ℕ
distance s p =
    if ltb s.current_proc p then p - s.current_proc else s.proc_count + p - s.current_proc

module _ (s : Scheduler) (inside : s.current_proc < s.proc_count) (p : ℕ) (bound : p < s.proc_count)
    (other : p ≢ s.current_proc) where
  distance_bounds : (0 < distance s p) × (distance s p < s.proc_count)
  unfolding distance
  distance_bounds = ground arith

  place-distance : place s (distance s p) ≡ p
  unfolding distance
  place-distance = elim (dec_lt s.current_proc p) [
    | yes less ↦ rw (lt→ltb s.current_proc p less) (
        mod-eq_of_lt {n = s.current_proc + (p - s.current_proc)} {m = s.proc_count} (omega arith)
        ∙ omega arith)
    | no more ↦ rw (ltb_ge s.current_proc p (omega arith)) (
        mod-eq-sub-mod {n = s.current_proc + (s.proc_count + p - s.current_proc)} {m = s.proc_count}
          (omega arith)
        ∙ ap (λ t. t % s.proc_count) (omega arith)
        ∙ mod-eq_of_lt bound)
  ]

  -- A ready process other than the current one, in a table that holds the current one, is resumed
  -- within `proc_count - 1` calls of `switch_proc`, whatever the states of the others are.
  pub switch_proc-Resumes : is_ready (s.processes p).state ≡ true → Resumes p (s.proc_count - 1) s
  switch_proc-Resumes r =
      let (pos, less) = distance_bounds in
      subst (λ m. Resumes m (s.proc_count - 1) s) place-distance
        (Resumes-place (s.proc_count - 1) (distance s p) s inside (pos, inl less)
          (ap (λ m. is_ready (s.processes m).state) place-distance ∙ r) (omega arith))
