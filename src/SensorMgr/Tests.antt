-- ===== src/SensorMgr/Tests.antt =====
-- Witnesses of the sensor manager.
use nic_ob_fw.Common.{true, some, for_range, ◌≡◌, ◌≤◌, ◌↔◌, refl, none, arith}
use nic_ob_fw.Common.Int.{pos, negsuc}
use nic_ob_fw.Firmware.{Firmware, continue}
use nic_ob_fw.Sample.{esp, firmware}
use nic_ob_fw.SensorMgr.{apply_calibration, poll_all_sensors, poll_sensor}
use nic_ob_fw.SensorMgr.Calibration.{
  Calibrates, apply_calibration-Calibrates, apply_calibration_undefined_iff,
}
use nic_ob_fw.SensorMgr.Round.{SensorRounds, sensor_mgr_round-SensorRounds}
use nic_ob_fw.SensorMgr.Poll.{poll_all_sensors-for_range}

apply_calibration-Calibrates_example : Calibrates 1 (negsuc 639)
apply_calibration-Calibrates_example =
    apply_calibration-Calibrates 1 (negsuc 639) (omega arith) (omega arith, omega arith)

apply_calibration_undefined_iff_example : (apply_calibration 2 (pos 400) ≡ none) ↔ (2 ≤ 2)
apply_calibration_undefined_iff_example =
    apply_calibration_undefined_iff 2 (pos 400) (omega arith, omega arith)

-- A cache of five sensors: one round of the unrolled loop, and one sensor more.
abbrev five_sensors : Firmware
five_sensors = record firmware {
  sensor_mgr = record firmware.sensor_mgr {
    cache = record firmware.sensor_mgr.cache { count = 5 };
  };
}

poll_all_sensors-for_range_example :
    poll_all_sensors esp five_sensors
    ≡ for_range 5 (λ i r. continue r (λ _. poll_sensor esp i)) 0 (some (tt, five_sensors))
poll_all_sensors-for_range_example = poll_all_sensors-for_range esp five_sensors (omega arith)

-- The timer asked for a poll.
abbrev due : Firmware
due = record firmware { sensor_mgr = record firmware.sensor_mgr { poll_trigger = true } }

sensor_mgr_round-SensorRounds_example : SensorRounds esp due
sensor_mgr_round-SensorRounds_example =
    sensor_mgr_round-SensorRounds esp due (record { sized = refl; calibrated = omega arith })
