-- ===== src/Flash/Poll.antt =====
-- One round of the polling of the busy bit.
use nic_ob_fw.Common.{
  ℕ, suc, ◌+◌, ◌*◌, ◌%◌, ◌^◌, ◌≤◌, ◌≡◌, ◌≢◌, refl, ap, ◌∙◌, [], ◌∷◌, ◌++◌, true, false, some, inl,
  inr, arith, bit_and, ltb, ◌==◌, Bool-cases, sub32, get_or, append-nil,
}
use nic_ob_fw.Types.{RtosErr, rtos_ok, rtos_err_timeout, rtos_err_fail}
use nic_ob_fw.Types.Errors.{on_failure}
use nic_ob_fw.Platform.{Esp, spi_device_transmit, tick_count, task_delay}
use nic_ob_fw.Firmware.{Firmware, M, pure, ◌>>=◌, ◌>>◌, bind-eq}
use nic_ob_fw.Rtos.{rtos_get_tick_ms, rtos_delay_ms}
use nic_ob_fw.Hal.NicChip.{nic_chip_hal_spi_transfer}
use nic_ob_fw.Flash.{read_status, flash_cmd_read_status, flash_status_busy, wait_ready_loop}
use nic_ob_fw.Flash.Ops.{not_busy, transfer_err, status_ops, flash_ops}
use nic_ob_fw.Flash.Runs.{Extends, Extends-refl, Runs, Runs-after, Runs-fail}
use nic_ob_fw.Flash.Clock.{IsClock}

module _ (esp : Esp) (clock : IsClock esp) where
  open clock use {time, reads, flows, bounded, fine, fine_flows}

  -- One read of the status register.
  pub record StatusRead (s : Firmware) : Type 0 where
    pub err : RtosErr
    pub status : ℕ
    pub after : Firmware
    pub returns : read_status esp s ≡ some ((err, status), after)
    pub says : Extends esp s after (status_ops err status)
    pub later : time s.world ≤ time after.world
    pub finely : fine s.world ≤ fine after.world
    pub soon : time after.world ≤ time s.world + 2 ^ 29

  pub status_read : (s : Firmware) → StatusRead s
  unfolding read_status nic_chip_hal_spi_transfer status_ops
  status_read s = elim (Bool-cases s.nic_hal.initialized) [
    | inl on ↦
        let call =
          spi_device_transmit s.nic_hal.spi_dev (some (flash_cmd_read_status ∷ 0x00 ∷ [])) true
            (2 * 8) in
        let a = esp.answer s.world call in
        record {
          err = transfer_err a;
          status = get_or a.bytes 1 0;
          after = record s { world = call ∷ s.world };
          returns = rw on;
          says = record { same = refl; ops = unfold flash_ops in refl };
          later = flows s.world call;
          finely = fine_flows s.world call;
          soon = bounded s.world call;
        }
    | inr off ↦ record {
      err = rtos_err_fail;
      status = 0;
      after = s;
      returns = rw off;
      says = Extends-refl s;
      later = omega arith;
      finely = omega arith;
      soon = omega arith;
    }
  ]

  -- A delay and a reading of the clock.
  abbrev pub delayed : Firmware → Firmware
  delayed s = record s { world = task_delay (esp.ticks_of_ms 1) ∷ s.world }

  abbrev pub read_clock : Firmware → Firmware
  read_clock s = record s { world = tick_count ∷ s.world }

  -- What the loop does with the time,
  abbrev judge : ℕ → ℕ → ℕ → ℕ → M RtosErr
  judge fuel start timeout_ms now = elim (ltb (sub32 now start) timeout_ms) [
    | true ↦ wait_ready_loop esp fuel start timeout_ms
    | false ↦ pure rtos_err_timeout
  ]

  pub tick_ms-eq :
      (s : Firmware) → rtos_get_tick_ms esp s ≡ some (time s.world % 2 ^ 32, read_clock s)
  unfolding rtos_get_tick_ms
  tick_ms-eq s = ap (λ (t : ℕ). some (t, read_clock s)) (reads s.world)

  delay_ms-eq : (s : Firmware) → rtos_delay_ms esp 1 s ≡ some (tt, delayed s)
  unfolding rtos_delay_ms
  delay_ms-eq s = refl

  -- with a status, and after one that says busy.
  abbrev poll_again : ℕ → ℕ → ℕ → M RtosErr
  poll_again fuel start timeout_ms = do
    rtos_delay_ms esp 1
    now ← rtos_get_tick_ms esp
    judge fuel start timeout_ms now

  abbrev after_status : ℕ → ℕ → ℕ → RtosErr × ℕ → M RtosErr
  after_status fuel start timeout_ms r = elim r.0 [
    | rtos_ok ↦ elim (bit_and r.1 flash_status_busy == 0) [
      | true ↦ pure rtos_ok
      | false ↦ poll_again fuel start timeout_ms
    ]
    | err ↦ pure err
  ]

  module _ (fuel start timeout_ms : ℕ) (s : Firmware) (r : StatusRead s) where
    abbrev this_loop : M RtosErr
    this_loop = wait_ready_loop esp (suc fuel) start timeout_ms

    loop_after :
        (e : RtosErr)
        → r.err ≡ e
        → this_loop s ≡ after_status fuel start timeout_ms (e, r.status) r.after
    unfolding wait_ready_loop
    loop_after e is =
        bind-eq (read_status esp) (after_status fuel start timeout_ms) s r.returns ∙ rw is

    pub loop_failed : r.err ≢ rtos_ok → Runs esp this_loop s (not_busy ∷ [])
    unfolding status_ops
    loop_failed bad =
        Runs-after this_loop (pure r.err) s r.after _ (rw (silent r.err bad) at r.says)
          (loop_after _ refl ∙ ap (λ (m : M RtosErr). m r.after) (stops r.err bad))
          (Runs-fail r.err r.after _ (λ ok. absurd (bad ok)))
      where
        stops :
            (e : RtosErr) → e ≢ rtos_ok → after_status fuel start timeout_ms (e, r.status) ≡ pure e
        stops =
            on_failure (λ e. after_status fuel start timeout_ms (e, r.status) ≡ pure e) refl refl
              refl refl refl

        silent : (e : RtosErr) → e ≢ rtos_ok → status_ops e r.status ≡ []
        silent = on_failure (λ e. status_ops e r.status ≡ []) refl refl refl refl refl

    pub loop_ready :
        r.err ≡ rtos_ok
        → (bit_and r.status flash_status_busy == 0) ≡ true
        → Runs esp this_loop s (not_busy ∷ [])
    unfolding status_ops
    loop_ready is ready = record {
      err = rtos_ok;
      after = r.after;
      done = not_busy ∷ [];
      rest = [];
      returns = loop_after _ is ∙ rw (after_status, ready);
      extends = rw (is, ready) at r.says;
      prefix = refl;
      complete = λ ok. refl;
    }

    pub loop_busy :
        r.err ≡ rtos_ok
        → (bit_and r.status flash_status_busy == 0) ≡ false
        → Runs esp (poll_again fuel start timeout_ms) r.after (not_busy ∷ [])
        → Runs esp this_loop s (not_busy ∷ [])
    unfolding status_ops
    loop_busy is busy again =
        Runs-after this_loop (poll_again fuel start timeout_ms) s r.after _
          (rw (is, busy) at r.says) (loop_after _ is ∙ rw (after_status, busy)) again

  polled-Extends : (s : Firmware) → Extends esp s (read_clock (delayed s)) []
  unfolding flash_ops
  polled-Extends s = record { same = refl; ops = append-nil (flash_ops esp s.world ++ []) }

  -- The clock is read, and the loop goes on or gives up.
  pub poll_again-Runs :
      (fuel t0 timeout_ms : ℕ) (s : Firmware)
      → (ltb (sub32 (time (delayed s).world % 2 ^ 32) (t0 % 2 ^ 32)) timeout_ms ≡ true
          → Runs esp
              (wait_ready_loop esp fuel (t0 % 2 ^ 32) timeout_ms)
              (read_clock (delayed s))
              (not_busy ∷ []))
      → Runs esp (poll_again fuel (t0 % 2 ^ 32) timeout_ms) s (not_busy ∷ [])
  poll_again-Runs fuel t0 timeout_ms s more =
      let start = t0 % 2 ^ 32 in
      let w = (delayed s).world in
      let t = read_clock (delayed s) in
      let polled =
        bind-eq (rtos_delay_ms esp 1) (λ _. rtos_get_tick_ms esp >>= judge fuel start timeout_ms) s
          (delay_ms-eq s)
        ∙ bind-eq (rtos_get_tick_ms esp) (judge fuel start timeout_ms) (delayed s)
            (tick_ms-eq (delayed s)) in
      elim (Bool-cases (ltb (sub32 (time w % 2 ^ 32) start) timeout_ms)) [
        | inl going ↦
            Runs-after (poll_again fuel start timeout_ms)
              (wait_ready_loop esp fuel start timeout_ms) s t _ (polled-Extends s)
              (polled ∙ rw (judge, going)) (more going)
        | inr late ↦
            Runs-after (poll_again fuel start timeout_ms) (pure rtos_err_timeout) s t _
              (polled-Extends s) (polled ∙ rw (judge, late))
              (Runs-fail rtos_err_timeout t _ (λ ok. absurd (cc)))
      ]
