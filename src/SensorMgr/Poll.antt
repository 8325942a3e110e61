-- ===== src/SensorMgr/Poll.antt =====
-- A round of polling: which records it changes, and to what.
use nic_ob_fw.Common.{
  ℕ, zero, suc, ◌+◌, ◌≤◌, ◌<◌, ◌≡◌, ◌⊎◌, refl, ap, ◌∙◌, Option, some, inl, inr, arith, ◌==◌, ==_iff,
  length, for_range, unrolled, Bool-cases,
}
use nic_ob_fw.Platform.{Esp}
use nic_ob_fw.Firmware.{Firmware, continue}
use nic_ob_fw.SensorMgr.{poll_sensor, poll_one, poll_four, poll_all_sensors}
use nic_ob_fw.SensorMgr.Reading.{Reads, poll_sensor-Polls}
use nic_ob_fw.SensorMgr.Store.{record_at, IsCache}

-- From one state to another, the sensors from `i` on are polled, one after the other, `n` of them.
pub data Polled (esp : Esp) : ℕ → ℕ → Firmware → Firmware → Type 0 where
  all_polled : (i : ℕ) (s : Firmware) → Polled esp i zero s s
  polls_next :
      (i n : ℕ) (s u t : Firmware)
      → Reads esp i s u
      → Polled esp (suc i) n u t
      → Polled esp i (suc n) s t

-- The poll of one sensor: its record is as it was before, and stays as it is after.
pub record Polling (esp : Esp) (j : ℕ) (s t : Firmware) : Type 0 where
  pub before : Firmware
  pub after : Firmware
  pub untouched : record_at before j ≡ record_at s j
  pub reads : Reads esp j before after
  pub kept : record_at t j ≡ record_at after j

-- What a round leaves: the `n` sensors from `i` on were polled, and no other record changed.
pub record Sweeps (esp : Esp) (r : Option (Unit {0} × Firmware)) (i n : ℕ) (s : Firmware)
    : Type 0 where
  pub after : Firmware
  pub returns : r ≡ some (tt, after)
  pub same_count : after.sensor_mgr.cache.count ≡ s.sensor_mgr.cache.count
  pub same_trigger : after.sensor_mgr.poll_trigger ≡ s.sensor_mgr.poll_trigger
  pub sized : length after.sensor_mgr.cache.records ≡ 16
  pub polled : Polled esp i n s after
  pub read : (j : ℕ) → i ≤ j → j < i + n → Polling esp j s after
  pub others : (j : ℕ) → (j < i) ⊎ (i + n ≤ j) → record_at after j ≡ record_at s j

sweep :
    (esp : Esp) (n i : ℕ) (s : Firmware)
    → IsCache s
    → i + n ≤ 2
    → Sweeps esp (for_range n (poll_one esp) i (some (tt, s))) i n s
unfolding for_range
sweep esp zero i s c h = record {
  after = s;
  returns = refl;
  same_count = refl;
  same_trigger = refl;
  sized = c.sized;
  polled = all_polled i s;
  read = λ j p q. absurd (omega arith);
  others = λ j p. refl;
}
sweep esp (suc n) i s c h =
    let p = poll_sensor-Polls esp i s c (omega arith) in
    let valid : IsCache p.after = record {
      sized = p.sized;
      calibrated = omega (arith, p.same_count, c.calibrated);
    } in
    let rest = sweep esp n (suc i) p.after valid (omega arith) in
    record {
      after = rest.after;
      returns = rw (p.returns) rest.returns;
      same_count = rest.same_count ∙ p.same_count;
      same_trigger = rest.same_trigger ∙ p.same_trigger;
      sized = rest.sized;
      polled = polls_next i n s p.after rest.after (p.reads) (rest.polled);
      read = λ j from to. elim (Bool-cases (j == i)) [
        | inl here ↦
            let e : j ≡ i = (==_iff j i).0 here in
            rw e (record {
              before = s;
              after = p.after;
              untouched = refl;
              reads = p.reads;
              kept = rest.others i (inl (omega arith));
            })
        | inr there ↦
            let r = rest.read j (ground (arith, there)) (omega arith) in
            record {
              before = r.before;
              after = r.after;
              untouched = r.untouched ∙ p.others j (ground (arith, there));
              reads = r.reads;
              kept = r.kept;
            }
      ];
      others = λ j out. rest.others j (ground (arith, out)) ∙ p.others j (ground (arith, out));
    }

-- Whatever the count, the loop unrolled by four and the loop over the rest poll every counted
-- sensor once, in order, and no other: the round is the plain loop over all sensors, also where it
-- ends in undefined behaviour. The count is a uint8_t.
pub poll_all_sensors-for_range :
    (esp : Esp) (s : Firmware)
    → s.sensor_mgr.cache.count < 256
    → poll_all_sensors esp s
      ≡ for_range s.sensor_mgr.cache.count
          (λ i r. continue r (λ _. poll_sensor esp i))
          0
          (some (tt, s))
unfolding poll_all_sensors
poll_all_sensors-for_range esp s small =
    ap (λ (r : ℕ × Option (Unit {0} × Firmware)). r.1)
      (unrolled (poll_one esp) (poll_four esp) (λ i r. refl) s.sensor_mgr.cache.count 256
        (some (tt, s)) small (omega (arith, small)))

pub poll_all_sensors-Sweeps :
    (esp : Esp) (s : Firmware)
    → IsCache s
    → Sweeps esp (poll_all_sensors esp s) 0 s.sensor_mgr.cache.count s
poll_all_sensors-Sweeps esp s c =
    rw (poll_all_sensors-for_range esp s (omega (arith, c.calibrated)))
      (sweep esp s.sensor_mgr.cache.count 0 s c (omega (arith, c.calibrated)))
