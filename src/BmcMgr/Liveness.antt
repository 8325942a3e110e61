-- ===== src/BmcMgr/Liveness.antt =====
-- The liveness check, also when the 32-bit milliseconds wrap.
use nic_ob_fw.Common.{
  ◌+◌, ◌-◌, ◌%◌, ◌^◌, ◌≤◌, ◌<◌, ◌≡◌, refl, sym, ap, u32, ◌*◌, ◌∙◌, some, arith, ltb, sub32, ◌∷◌,
}
use nic_ob_fw.Platform.{Esp, tick_count}
use nic_ob_fw.Firmware.{Firmware}
use nic_ob_fw.Rtos.{rtos_get_tick_ms}
use nic_ob_fw.Flash.Clock.{IsClock}
use nic_ob_fw.BmcMgr.{liveness_update, liveness_check}

-- Now and when the BMC was heard of last, on a clock that does not wrap.
module _ (esp : Esp) (clock : IsClock esp) where
  open clock use {time, reads}

  -- On a clock, after `liveness_update` took `s` to `u`, the check at any later state `t`, in which
  -- the stored reading is the same, compares the milliseconds that went by with the timeout, as
  -- long as they are fewer than 2^32; a wrap of the 32-bit milliseconds in between does not matter.
  pub liveness_check-liveness_update :
      (s u t : Firmware)
      → liveness_update esp s ≡ some (tt, u)
      → t.bmc_mgr.last_bmc_seen_ms ≡ u.bmc_mgr.last_bmc_seen_ms
      → time s.world ≤ time t.world
      → time t.world < time s.world + 2 ^ 32
      → liveness_check esp t
        ≡ some (
          ltb (time t.world - time s.world) t.bmc_mgr.liveness_timeout_ms,
          record t { world = tick_count ∷ t.world },
        )
  unfolding liveness_update liveness_check rtos_get_tick_ms
  liveness_check-liveness_update s u t updates kept later soon =
      let updated : record s {
        world = tick_count ∷ s.world;
        bmc_mgr = record s.bmc_mgr {
          last_bmc_seen_ms = u32 (u32 (esp.answer s.world tick_count).value * esp.tick_period_ms);
        };
      }
          ≡ u =
        cc in
      let last =
        kept ∙ sym (ap (λ (v : Firmware). v.bmc_mgr.last_bmc_seen_ms) updated) ∙ reads s.world in
      let gone : sub32 (time t.world % 2 ^ 32) (time s.world % 2 ^ 32)
          ≡ time t.world - time s.world =
        omega arith in
      rw (reads t.world, last, gone) refl
