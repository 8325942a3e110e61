-- ===== src/System/Measure.antt =====
-- A measurement, from the register of the sensor to the response that the BMC reads.
use nic_ob_fw.Common.{ℕ, ◌*◌, ◌<◌, ◌≡◌, refl, ap, ◌∙◌, List, ◌∷◌, true, some, arith, u32}
use nic_ob_fw.Common.Int.{ℤ, IsInt16, scale_down}
use nic_ob_fw.Types.{PldmMsg, sensor_state_code}
use nic_ob_fw.Platform.{Esp, World, HwCall, IsSized, is_esp_ok, semaphore_take, tick_count}
use nic_ob_fw.Firmware.{Firmware}
use nic_ob_fw.SensorProtocol.Register.{
  register_bytes, register_call, sensor_protocol_read-register_bytes,
}
use nic_ob_fw.SensorMgr.{poll_sensor, check_thresholds}
use nic_ob_fw.SensorMgr.Store.{record_at, poll_sensor-Stores}
use nic_ob_fw.SensorMgr.Calibration.{scale_down-IsInt16}
use nic_ob_fw.BmcMgr.Wire.{record_bytes}
use nic_ob_fw.SensorMgr.Range.{IsRecord, measured-IsRecord, stamped-IsRecord}
use nic_ob_fw.System.{IsRunning}
use nic_ob_fw.BmcMgr.Decide.{
  Decides, asked_sensor, IsReading, reading, no_such_sensor, update_queued, update_refused, unknown,
}
use nic_ob_fw.BmcMgr.Dispatch.{Responds, dispatch_pldm-Responds}
use nic_ob_fw.BmcMgr.Encoding.{record_of_bytes, record_of_bytes-record_bytes}

-- The answer to a request for the reading of a sensor that there is.
content_of_reading :
    (esp : Esp) (msg : PldmMsg) (s : Firmware) (calls : List HwCall) (cc : ℕ) (content : List ℕ)
    → IsReading msg
    → asked_sensor msg < s.sensor_mgr.cache.count
    → Decides esp msg s calls cc content
    → (cc ≡ 0) × (content ≡ record_bytes (record_at s (asked_sensor msg)))
content_of_reading esp msg s calls cc content is known (reading r inside) = (refl, refl)
content_of_reading esp msg s calls cc content is known (no_such_sensor r beyond) =
    absurd (omega arith)
content_of_reading esp msg s calls cc content is known (update_queued u sent) =
    absurd (omega (arith, is.0, u.0))
content_of_reading esp msg s calls cc content is known (update_refused u sent) =
    absurd (omega (arith, is.0, u.0))
content_of_reading esp msg s calls cc content is known (unknown no_reading no_update) =
    absurd (no_reading is)

-- The tick count in milliseconds that the poll reads, after the register and the mutex.
abbrev pub poll_time : Esp → ℕ → Firmware → ℕ
poll_time esp i s = u32 (
    u32
      (esp.answer
        (semaphore_take s.sensor_mgr.cache_mutex 0xffff_ffff ∷ register_call esp i ∷ s.world)
        tick_count).value
    * esp.tick_period_ms)

-- The poll of the sensor asked about stores a record, and the request is answered with this record:
-- the value `v` of the register, its degrees, their state and the time of the poll.
pub record Measures (esp : Esp) (msg : PldmMsg) (v : ℤ) (s : Firmware) : Type 0 where
  pub polled : Firmware
  pub polls : poll_sensor esp (asked_sensor msg) s ≡ some (tt, polled)
  pub responds : Responds esp msg polled
  pub success : responds.cc ≡ 0
  pub shows : record_of_bytes (responds.content) ≡ record (record_at s (asked_sensor msg)) {
    raw_value = v;
    scaled_value = scale_down v 16;
    state = sensor_state_code (check_thresholds (asked_sensor msg) (scale_down v 16));
    timestamp_ms = poll_time esp (asked_sensor msg) s;
  }

-- In every running state, with arrays of their sizes: when the register of a counted sensor holds a
-- 16-bit value, the sensor driver is initialised and the transaction succeeds, the poll of that
-- sensor returns, and a request for its reading afterwards goes out as a success whose 16 bytes the
-- BMC reads back as a record with exactly this value, the degrees cut towards zero, their state and
-- the time of the poll; the identity fields are the old ones.
pub dispatch_pldm-Measures :
    (esp : Esp) (msg : PldmMsg) (v : ℤ) (s : Firmware)
    → ((w : World) → IsSized (esp.uninit w))
    → IsRunning s
    → s.sensor_hal_initialized ≡ true
    → IsReading msg
    → asked_sensor msg < s.sensor_mgr.cache.count
    → IsInt16 v
    → is_esp_ok (esp.answer s.world (register_call esp (asked_sensor msg))) ≡ true
    → (esp.answer s.world (register_call esp (asked_sensor msg))).bytes ≡ register_bytes v
    → Measures esp msg v s
dispatch_pldm-Measures esp msg v s sized running sensors is known range fine bytes =
    let c = running.sound.cache in
    let i = asked_sensor msg in
    let read =
      sensor_protocol_read-register_bytes esp i v s (omega (arith, known, c.calibrated)) sensors
        range fine bytes in
    let stores =
      poll_sensor-Stores esp i v s (record s { world = register_call esp i ∷ s.world }) c
        (omega (arith, known, c.calibrated)) range refl read in
    let responds =
      dispatch_pldm-Responds esp msg (stores.after) sized
        (ap (λ (u : Firmware). u.bmc_hal.initialized) (stores.only) ∙ running.sound.transmits)
        (omega (arith, stores.same_count, c.calibrated)) in
    let answer =
      content_of_reading esp msg (stores.after) (responds.calls) (responds.cc) (responds.content) is
        (omega (arith, known, stores.same_count)) (responds.decides) in
    let now = poll_time esp i s in
    let stored = λ (degrees : ℤ). record (record_at s i) {
      raw_value = v;
      scaled_value = degrees;
      state = sensor_state_code (check_thresholds i degrees);
      timestamp_ms = now;
    } in
    let rec = stored (scale_down v 16) in
    let valid : IsRecord rec = stamped-IsRecord _ now (omega arith) (
      measured-IsRecord _ v (scale_down v 16) _ range (scale_down-IsInt16 v range)
        (running.sound.typed i)) in
    record {
      polled = stores.after;
      polls = stores.returns;
      responds = responds;
      success = answer.0;
      shows =
          ap record_of_bytes
            (answer.1 ∙ ap record_bytes (stores.own ∙ ap stored (stores.truncates)))
          ∙ record_of_bytes-record_bytes rec valid;
    }
