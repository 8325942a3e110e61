-- ===== src/Flash/Ready.antt =====
-- The polling of the busy bit ends, and changes nothing in the flash.
use nic_ob_fw.Common.{
  ℕ, zero, suc, ◌+◌, ◌%◌, ◌^◌, ◌≤◌, ◌<◌, ◌≡◌, refl, [], ◌∷◌, true, inl, inr, arith, bit_and, ltb,
  ◌==◌, Bool-cases, sub32, ltb→lt,
}
use nic_ob_fw.Types.Errors.{RtosErr-cases}
use nic_ob_fw.Platform.{Esp, World, tick_count, task_delay}
use nic_ob_fw.Firmware.{Firmware, bind-eq}
use nic_ob_fw.Rtos.{rtos_get_tick_ms}
use nic_ob_fw.Flash.{flash_status_busy, wait_ready_loop, spi_flash_cmd_wait_ready}
use nic_ob_fw.Flash.Ops.{not_busy, flash_ops}
use nic_ob_fw.Flash.Runs.{Extends, Runs, Runs-after}
use nic_ob_fw.Flash.Clock.{IsClock}
use nic_ob_fw.Flash.Poll.{
  StatusRead, status_read, delayed, read_clock, tick_ms-eq, loop_failed, loop_ready, loop_busy,
  poll_again-Runs,
}

module _ (esp : Esp) (clock : IsClock esp) where
  open clock use {time, reads, flows, bounded, fine, fine_flows, delays, passes}

  loop-Runs :
      (fuel : ℕ) (v w : World) (timeout_ms : ℕ) (s : Firmware)
      → timeout_ms ≤ 2 ^ 31
      → time v ≤ time w
      → time w ≤ time v + timeout_ms
      → fine v + esp.polls_in timeout_ms ≤ fine w + fuel
      → time w ≤ time s.world
      → time s.world ≤ time w + 2 ^ 29
      → fine w ≤ fine s.world
      → Runs esp (wait_ready_loop esp fuel (time v % 2 ^ 32) timeout_ms) s (not_busy ∷ [])
  loop-Runs zero v w timeout_ms s h1 h2 h3 h4 h5 h6 h7 =
      absurd (omega (arith, passes v w timeout_ms (omega arith)))
  loop-Runs (suc fuel) v r timeout_ms s h1 h2 h3 h4 h5 h6 h7 =
      let st = status_read esp clock s in
      let w = (delayed esp clock st.after).world in
      by_err (λ going.
        loop-Runs fuel v w timeout_ms (read_clock esp clock (delayed esp clock st.after)) h1
          (later_than st) (within st going) (omega (arith, progress st)) (flows w tick_count)
          (bounded w tick_count) (fine_flows w tick_count))
    where
      later_than : (st : StatusRead esp clock s) → time v ≤ time (delayed esp clock st.after).world
      later_than st = omega (arith, flows st.after.world (task_delay (esp.ticks_of_ms 1)), st.later)

      progress : (st : StatusRead esp clock s) → fine r < fine (delayed esp clock st.after).world
      progress st = omega (arith, delays st.after.world, st.finely)

      within :
          (st : StatusRead esp clock s)
          → ltb
              (sub32 (time (delayed esp clock st.after).world % 2 ^ 32) (time v % 2 ^ 32))
              timeout_ms
            ≡ true
          → time (delayed esp clock st.after).world ≤ time v + timeout_ms
      within st going = omega (
        arith,
        ltb→lt (sub32 (time (delayed esp clock st.after).world % 2 ^ 32) (time v % 2 ^ 32))
            timeout_ms going,
        bounded st.after.world (task_delay (esp.ticks_of_ms 1)),
        st.soon,
        later_than st,
      )

      by_err :
          (ltb
                (sub32
                  (time (delayed esp clock (status_read esp clock s).after).world % 2 ^ 32)
                  (time v % 2 ^ 32))
                timeout_ms
              ≡ true
            → Runs esp
                (wait_ready_loop esp fuel (time v % 2 ^ 32) timeout_ms)
                (read_clock esp clock (delayed esp clock (status_read esp clock s).after))
                (not_busy ∷ []))
          → Runs esp (wait_ready_loop esp (suc fuel) (time v % 2 ^ 32) timeout_ms) s (not_busy ∷ [])
      by_err again = elim (RtosErr-cases (status_read esp clock s).err) [
        | inr bad ↦
            loop_failed esp clock fuel (time v % 2 ^ 32) timeout_ms s (status_read esp clock s) bad
        | inl is ↦
            elim (Bool-cases (bit_and (status_read esp clock s).status flash_status_busy == 0)) [
              | inl ready ↦
                  loop_ready esp clock fuel (time v % 2 ^ 32) timeout_ms s (status_read esp clock s)
                    is ready
              | inr busy ↦
                  loop_busy esp clock fuel (time v % 2 ^ 32) timeout_ms s (status_read esp clock s)
                    is busy
                    (poll_again-Runs esp clock fuel (time v) timeout_ms
                      (status_read esp clock s).after again)
            ]
      ]

  clock_read-Extends : (s : Firmware) → Extends esp s (read_clock esp clock s) []
  unfolding flash_ops
  clock_read-Extends s = record { same = refl; ops = refl }

  -- Waiting for the flash always ends, given a clock and a timeout of at most 2^31 milliseconds,
  -- also when the tick count wraps meanwhile; it erases and programs nothing, and when it returns
  -- `RTOS_OK` the flash has said that it is not busy.
  pub spi_flash_cmd_wait_ready-Runs :
      (timeout_ms : ℕ) (s : Firmware)
      → timeout_ms ≤ 2 ^ 31
      → Runs esp (spi_flash_cmd_wait_ready esp timeout_ms) s (not_busy ∷ [])
  unfolding spi_flash_cmd_wait_ready
  spi_flash_cmd_wait_ready-Runs timeout_ms s h =
      let t0 = time s.world in
      Runs-after (spi_flash_cmd_wait_ready esp timeout_ms)
        (wait_ready_loop esp (esp.polls_in timeout_ms) (t0 % 2 ^ 32) timeout_ms) s
        (read_clock esp clock s) _ (clock_read-Extends s)
        (bind-eq (rtos_get_tick_ms esp)
          (λ start. wait_ready_loop esp (esp.polls_in timeout_ms) start timeout_ms) s
          (tick_ms-eq esp clock s))
        (loop-Runs (esp.polls_in timeout_ms) s.world s.world timeout_ms (read_clock esp clock s) h
          (omega arith) (omega arith) (omega arith) (flows s.world tick_count)
          (bounded s.world tick_count) (fine_flows s.world tick_count))
