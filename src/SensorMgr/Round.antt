-- ===== src/SensorMgr/Round.antt =====
-- A round of `sensor_mgr_task`: the poll, if the timer asked for one, and the wait for an alert.
use nic_ob_fw.Common.{ℕ, ◌≤◌, ◌<◌, ◌≡◌, refl, ◌∷◌, true, false, some, inl, inr, arith, Bool-cases}
use nic_ob_fw.Platform.{Esp, queue_receive}
use nic_ob_fw.Firmware.{Firmware}
use nic_ob_fw.Rtos.{rtos_queue_receive}
use nic_ob_fw.SensorMgr.{sensor_mgr_round}
use nic_ob_fw.SensorMgr.Store.{record_at, IsCache}
use nic_ob_fw.SensorMgr.Poll.{Polled, Polling, poll_all_sensors-Sweeps}

-- What a round comes to.
pub data SensorRounds (esp : Esp) (s : Firmware) : Type 0 where
  not_due :
      s.sensor_mgr.poll_trigger ≡ false
      → sensor_mgr_round esp s
        ≡ some (
          tt,
          record s {
            world = queue_receive s.sensor_mgr.alert_queue (esp.ticks_of_ms 50) ∷ s.world;
          },
        )
      → SensorRounds esp s
  polled :
      (u t : Firmware)
      → s.sensor_mgr.poll_trigger ≡ true
      → sensor_mgr_round esp s ≡ some (tt, t)
      → t.sensor_mgr.poll_trigger ≡ false
      → IsCache t
      → Polled esp 0 s.sensor_mgr.cache.count
          (record s { sensor_mgr = record s.sensor_mgr { poll_trigger = false } })
          u
      → t
        ≡ record u { world = queue_receive u.sensor_mgr.alert_queue (esp.ticks_of_ms 50) ∷ u.world }
      → ((j : ℕ) → j < s.sensor_mgr.cache.count → Polling esp j s t)
      → ((j : ℕ) → s.sensor_mgr.cache.count ≤ j → record_at t j ≡ record_at s j)
      → SensorRounds esp s

-- With a cache of 16 records whose count is at most two, a round always returns. If the timer asked
-- for a poll, the request is taken back and every counted sensor is polled, one after the other,
-- each once, its record left as this poll leaves it: as it was, if the read failed, or with the new
-- reading; then comes the wait for an alert, and the records behind the count are as they were. If
-- the timer did not ask, the round only waits for an alert.
pub sensor_mgr_round-SensorRounds : (esp : Esp) (s : Firmware) → IsCache s → SensorRounds esp s
unfolding sensor_mgr_round rtos_queue_receive
sensor_mgr_round-SensorRounds esp s c = elim (Bool-cases s.sensor_mgr.poll_trigger) [
  | inr idle ↦ not_due idle (rw idle refl)
  | inl due ↦
      let cleared = record s { sensor_mgr = record s.sensor_mgr { poll_trigger = false } } in
      let sweeps =
        poll_all_sensors-Sweeps esp cleared
          (record { sized = c.sized; calibrated = c.calibrated }) in
      polled sweeps.after
        (record sweeps.after {
          world =
              queue_receive sweeps.after.sensor_mgr.alert_queue (esp.ticks_of_ms 50)
              ∷ sweeps.after.world;
        })
        due (rw (due, sweeps.returns) refl) (sweeps.same_trigger)
        (record {
          sized = sweeps.sized;
          calibrated = omega (arith, sweeps.same_count, c.calibrated);
        })
        (sweeps.polled) refl
        (λ j inside.
          let p = sweeps.read j (omega arith) (omega arith) in
          record {
            before = p.before;
            after = p.after;
            untouched = p.untouched;
            reads = p.reads;
            kept = p.kept;
          })
        (λ j beyond. sweeps.others j (inr (omega arith)))
]
