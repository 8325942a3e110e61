-- ===== src/SensorMgr/Threads/Tests.antt =====
-- Witnesses of the interleaved threads: a poll of sensor 1, and a copy of its record.
use nic_ob_fw.Common.{some, ◌≡◌, refl, [], ◌∷◌, arith}
use nic_ob_fw.Common.Int.{pos, int16, scale_down, scale_up, ◌+ℤ◌}
use nic_ob_fw.Types.{SensorCache}
use nic_ob_fw.Sample.{firmware}
use nic_ob_fw.SensorMgr.{no_record, apply_calibration, calibration_of, scale}
use nic_ob_fw.SensorMgr.Threads.{bmc_thread, copying, Reading, Reach, later, bmc_takes, measured}
use nic_ob_fw.SensorMgr.Threads.Stores.{stores}
use nic_ob_fw.SensorMgr.Threads.Whole.{Copies, Reach-Copies}
use nic_ob_fw.SensorMgr.Threads.Alone.{
  Alone, at_rest, all_fields, all_fields-IsCopy, copy_rest, poll_alone,
}

-- 25 degrees.
abbrev warm : Reading
warm = record { sensor = 1; raw = pos 400; scaled = pos 25 }

warm_calibrated : apply_calibration 1 (pos 400) ≡ some (pos 25)
unfolding apply_calibration calibration_of scale int16 scale_down scale_up ◌+ℤ◌
warm_calibrated = refl

abbrev before : SensorCache
before = firmware.sensor_mgr.cache

abbrev polled : SensorCache
polled = stores warm 7 before

-- The poll is complete, the copy has begun, and the next poll waits for the mutex.
reached : Reach before ((warm, 7) ∷ []) (record (at_rest polled) {
  owner = some bmc_thread;
  bmc = copying 1 [] (measured warm 7 no_record);
})
reached = copy_rest _ 1 all_fields no_record refl (
    later (poll_alone before warm 7 warm_calibrated)
      (bmc_takes 1 all_fields no_record (omega arith) all_fields-IsCopy refl refl))

Reach-Copies_example :
    Copies before
      ((warm, 7) ∷ [])
      (record (at_rest polled) {
        owner = some bmc_thread;
        bmc = copying 1 [] (measured warm 7 no_record);
      })
      1
      (measured warm 7 no_record)
Reach-Copies_example = Reach-Copies before ((warm, 7) ∷ []) _ 1 _ reached refl (omega arith)
