-- ===== src/Virtio/Wait.antt =====
-- The end of `vgp_send_command` of kernel/graph/drivers/virtio_gpu_pci/virtio_gpu_pci_driver.c: the
-- loop that waits for the index of the used ring to change.
use craybond_os.Base.{ℕ, zero, suc, ◌+◌, ◌≤◌, ◌<◌, ◌≡◌, refl, ◌≢◌, arith, ==_refl, ==_ne}
use craybond_os.Outcome.{done, out_of_fuel}
use craybond_os.Mem.{Memory, read16, write16}
use craybond_os.Virtio.{Vgp, Request, used_of, publish, turn, wait_used, vgp_send_command}

module _ {D : Type 0} (react : D → Memory → D × Memory) where
  -- The state after `n` turns of the device.
  unfoldable pub turns : ℕ → Vgp D → Vgp D
  turns zero s = s
  turns (suc n) s = turns n (turn react s)

  -- The index of the used ring after `n` turns.
  unfoldable pub used_after : (used : ℕ) → ℕ → Vgp D → ℕ
  used_after used n s = read16 (used + 2) (turns n s).mem

  wait_used-same :
      (polls used last : ℕ) (s : Vgp D)
      → ((i : ℕ) → i < polls → used_after used (suc i) s ≡ last)
      → wait_used react polls used last s ≡ out_of_fuel
  unfolding wait_used used_after turns
  wait_used-same zero used last s h = refl
  wait_used-same (suc n) used last s h =
      rw (h 0 (omega arith), ==_refl)
        (wait_used-same n used last (turn react s) (λ i l. h (suc i) (omega arith)))

  wait_used-changed :
      (polls used last k : ℕ) (s : Vgp D)
      → k < polls
      → ((i : ℕ) → i < k → used_after used (suc i) s ≡ last)
      → used_after used (suc k) s ≢ last
      → wait_used react polls used last s ≡ done (turns (suc k) s)
  unfolding wait_used used_after turns
  wait_used-changed zero used last k s h same changed = absurd (omega arith)
  wait_used-changed (suc n) used last zero s h same changed = rw (==_ne _ _ changed) refl
  wait_used-changed (suc n) used last (suc k) s h same changed =
      rw (same 0 (omega arith), ==_refl)
        (wait_used-changed n used last k (turn react s) (omega arith)
          (λ i l. same (suc i) (omega arith)) changed)

  -- The state in which the device is notified.
  unfoldable pub notified : Request → Vgp D → Vgp D
  notified r s = record s { mem = write16 s.notify_cfg 0 (publish r s) }

  -- If the index of the used ring first changes after the driver has looked at it, within as many
  -- further looks as the model allows, `vgp_send_command` returns with what the device has made of
  -- the published command by then.
  pub vgp_send_command-returns :
      (polls k : ℕ) (r : Request) (s : Vgp D)
      → k < polls
      → ((i : ℕ)
          → i ≤ k
          → used_after (used_of s) (suc i) (notified r s) ≡ used_after (used_of s) 1 (notified r s))
      → used_after (used_of s) (suc (suc k)) (notified r s)
        ≢ used_after (used_of s) 1 (notified r s)
      → vgp_send_command react polls r s ≡ done (turns (suc (suc k)) (notified r s))
  unfolding vgp_send_command notified used_after turns
  vgp_send_command-returns polls k r s h same changed =
      wait_used-changed polls (used_of s) _ k (turn react (notified r s)) h
        (λ i l. same (suc i) (omega arith)) changed

  -- The driver reads the index of the used ring only after it has notified the device: if the
  -- device has answered by then, and the index does not change any more, `vgp_send_command` never
  -- returns, whatever the number of looks.
  pub vgp_send_command-hangs :
      (polls : ℕ) (r : Request) (s : Vgp D)
      → ((i : ℕ)
          → used_after (used_of s) (suc i) (notified r s) ≡ used_after (used_of s) 1 (notified r s))
      → vgp_send_command react polls r s ≡ out_of_fuel
  unfolding vgp_send_command notified used_after turns
  vgp_send_command-hangs polls r s same =
      wait_used-same polls (used_of s) _ (turn react (notified r s)) (λ i l. same (suc i))
