-- ===== src/SensorMgr/Reading.antt =====
-- One sensor in a round of polling: what changes of its record, and to what.
use nic_ob_fw.Common.{
  ℕ, ◌+◌, ◌<◌, ◌≡◌, ◌≢◌, ◌⊎◌, refl, List, [], ◌∷◌, some, inl, inr, arith, u8, u16, bit_or, ◌<<<◌,
  lt→ltb, get_or, length, Bool-cases,
}
use nic_ob_fw.Common.Int.{ℤ, pos, IsInt16, signed16-IsInt16}
use nic_ob_fw.Types.{RtosErr, rtos_ok, rtos_err_fail, sensor_state_code}
use nic_ob_fw.Platform.{
  Esp, is_esp_ok, i2c_master_cmd_begin, i2c_start, i2c_stop, i2c_write_byte, i2c_read,
}
use nic_ob_fw.Firmware.{Firmware}
use nic_ob_fw.Hal.Sensor.{sensor_hal_read_reg}
use nic_ob_fw.SensorProtocol.{raw_of_bytes, sensor_map, no_sensor, sensor_protocol_read}
use nic_ob_fw.SensorMgr.{apply_calibration, check_thresholds, poll_sensor}
use nic_ob_fw.SensorMgr.Store.{record_at, IsCache, stamp, stored_world, poll_sensor-Stores}

raw_of_bytes-IsInt16 : (bytes : List ℕ) → IsInt16 (raw_of_bytes bytes)
unfolding raw_of_bytes
raw_of_bytes-IsInt16 bytes =
    let w = bit_or (get_or bytes 0 0 <<< 8) (get_or bytes 1 0) in
    signed16-IsInt16 (u16 w) (omega arith)

module _ (esp : Esp) where
  -- The poll of the sensor `i` from `s` to `t`. If the read failed, nothing but the read happened; if it
  -- brought `raw`, the four fields of the sensor's record that belong to a reading are stored, under the
  -- mutex, and nothing else changed.
  pub data Reads (i : ℕ) (s t : Firmware) : Type 0 where
    read_failed :
        sensor_protocol_read esp i s ≡ some ((rtos_err_fail, pos 0), t)
        → t ≡ record s { world = t.world }
        → Reads i s t
    read_ok :
        (raw scaled : ℤ) (u : Firmware)
        → sensor_protocol_read esp i s ≡ some ((rtos_ok, raw), u)
        → u ≡ record s { world = u.world }
        → IsInt16 raw
        → apply_calibration i raw ≡ some scaled
        → record_at t i ≡ record (record_at s i) {
          raw_value = raw;
          scaled_value = scaled;
          state = sensor_state_code (check_thresholds i scaled);
          timestamp_ms = stamp esp u;
        }
        → t ≡ record s { world = stored_world u; sensor_mgr = t.sensor_mgr }
        → Reads i s t

  -- One sensor.
  pub record Polls (i : ℕ) (s : Firmware) : Type 0 where
    pub after : Firmware
    pub returns : poll_sensor esp i s ≡ some (tt, after)
    pub same_count : after.sensor_mgr.cache.count ≡ s.sensor_mgr.cache.count
    pub same_trigger : after.sensor_mgr.poll_trigger ≡ s.sensor_mgr.poll_trigger
    pub sized : length after.sensor_mgr.cache.records ≡ 16
    pub others : (j : ℕ) → j ≢ i → record_at after j ≡ record_at s j
    pub reads : Reads i s after

  -- What a read of a sensor comes to.
  pub data Sampled (i : ℕ) (s : Firmware) : Type 0 where
    sampled :
        (raw : ℤ) (t : Firmware)
        → IsInt16 raw
        → t ≡ record s { world = t.world }
        → sensor_protocol_read esp i s ≡ some ((rtos_ok, raw), t)
        → Sampled i s
    not_sampled :
        (t : Firmware)
        → t ≡ record s { world = t.world }
        → sensor_protocol_read esp i s ≡ some ((rtos_err_fail, pos 0), t)
        → Sampled i s

  -- A register read comes back with bytes, or with an error.
  data HalReads (addr reg n : ℕ) (s : Firmware) : Type 0 where
    hal_read :
        (e : RtosErr) (bytes : List ℕ) (t : Firmware)
        → (e ≡ rtos_ok) ⊎ (e ≡ rtos_err_fail)
        → t ≡ record s { world = t.world }
        → sensor_hal_read_reg esp addr reg n s ≡ some ((e, bytes), t)
        → HalReads addr reg n s

  sensor_hal_read_reg-HalReads : (addr reg n : ℕ) (s : Firmware) → HalReads addr reg n s
  unfolding sensor_hal_read_reg
  sensor_hal_read_reg-HalReads addr reg n s = elim (Bool-cases s.sensor_hal_initialized) [
    | inr off ↦ hal_read rtos_err_fail [] s (inr refl) refl (simp off refl)
    | inl on ↦
        let call =
          i2c_master_cmd_begin 1
            (i2c_start
              ∷ i2c_write_byte (u8 (addr <<< 1))
              ∷ i2c_write_byte reg
              ∷ i2c_start
              ∷ i2c_write_byte (u8 (addr <<< 1 + 1))
              ∷ i2c_read n
              ∷ i2c_stop
              ∷ [])
            (esp.ticks_of_ms 50) in
        let ret = esp.answer s.world call in
        elim (Bool-cases (is_esp_ok ret)) [
          | inl fine ↦
              hal_read rtos_ok ret.bytes (record s { world = call ∷ s.world }) (inl refl) refl
                (simp (on, fine) refl)
          | inr bad ↦
              hal_read rtos_err_fail ret.bytes (record s { world = call ∷ s.world }) (inr refl) refl
                (simp (on, bad) refl)
        ]
  ]

  pub sensor_protocol_read-Sampled : (i : ℕ) (s : Firmware) → i < 16 → Sampled i s
  unfolding sensor_protocol_read
  sensor_protocol_read-Sampled i s h = go (
      sensor_hal_read_reg-HalReads (get_or sensor_map i no_sensor).i2c_addr
        (get_or sensor_map i no_sensor).reg_addr 2 s)
    where
      go :
          HalReads
            (get_or sensor_map i no_sensor).i2c_addr
            (get_or sensor_map i no_sensor).reg_addr
            2
            s
          → Sampled i s
      go (hal_read e bytes t (inl ok) same returns) =
          sampled (raw_of_bytes bytes) t (raw_of_bytes-IsInt16 bytes) same
            (rw (lt→ltb i 16 h, returns, ok) refl)
      go (hal_read e bytes t (inr fail) same returns) =
          not_sampled t same (rw (lt→ltb i 16 h, returns, fail) refl)

  pub poll_sensor-Polls : (i : ℕ) (s : Firmware) → IsCache s → i < 2 → Polls i s
  unfolding poll_sensor
  poll_sensor-Polls i s c h = go (sensor_protocol_read-Sampled i s (omega arith))
    where
      go : Sampled i s → Polls i s
      go (not_sampled t same returns) = record {
        after = t;
        returns = rw returns refl;
        same_count = rw same refl;
        same_trigger = rw same refl;
        sized = rw same c.sized;
        others = λ j other. rw same refl;
        reads = read_failed returns same;
      }
      go (sampled raw t range same returns) =
          let stores = poll_sensor-Stores esp i raw s t c h range same returns in
          record {
            after = stores.after;
            returns = stores.returns;
            same_count = stores.same_count;
            same_trigger = stores.same_trigger;
            sized = stores.sized;
            others = stores.others;
            reads =
                read_ok raw stores.degrees t returns same range (stores.calibrates) (stores.own)
                  (stores.only);
          }
