-- ===== src/SensorMgr/Calibration.antt =====
-- The calibration and the thresholds of the sensors.
use nic_ob_fw.Common.{
  get_or-replicate, ℕ, zero, suc, ◌-◌, ◌/◌, ◌≤◌, ◌<◌, ◌≡◌, ◌↔◌, ◌⊎◌, refl, true, some, none, inl,
  inr, arith, leb, ◌||◌, Bool, ltb, if◌then◌else◌, Bool-cases,
}
use nic_ob_fw.Common.Int.{
  ℤ, pos, negsuc, ◌+ℤ◌, ◌≤ℤ◌, leb_ℤ, scale_up, scale_down, IsInt16, int16_fits,
}
use nic_ob_fw.Types.{ok, critical}
use nic_ob_fw.SensorMgr.{
  no_cal, temperature_cal, calibration_of, scale, apply_calibration, check_thresholds,
}

pub scale_down-IsInt16 : (raw : ℤ) → IsInt16 raw → IsInt16 (scale_down raw 16)
unfolding scale_down
scale_down-IsInt16 (pos n) h = ground (arith, h)
scale_down-IsInt16 (negsuc n) h = ground (arith, h)

offset_zero : (raw : ℤ) → raw +ℤ pos 0 ≡ raw
unfolding ◌+ℤ◌
offset_zero (pos n) = ground arith
offset_zero (negsuc n) = ground arith

times_one : (raw : ℤ) → scale_up raw 1 ≡ raw
unfolding scale_up
times_one (pos n) = ground arith
times_one (negsuc n) = ground arith

temperature_scaled : (raw : ℤ) → IsInt16 raw → scale temperature_cal raw ≡ some (scale_down raw 16)
unfolding scale
temperature_scaled raw h =
    rw (offset_zero raw, times_one raw, int16_fits (scale_down raw 16) (scale_down-IsInt16 raw h))
      refl

-- A temperature sensor's raw value in sixteenths of a degree: what is stored, and when it is critical.
pub record Calibrates (sensor_id : ℕ) (raw : ℤ) : Type 0 where
  pub degrees : ℤ
  pub scaled : apply_calibration sensor_id raw ≡ some degrees
  pub truncates : degrees ≡ scale_down raw 16
  pub alarms :
      (check_thresholds sensor_id degrees ≡ critical) ↔ ((pos 1360 ≤ℤ raw) ⊎ (raw ≤ℤ negsuc 639))

abbrev Alarming : ℤ → Type 0
Alarming raw = (pos 1360 ≤ℤ raw) ⊎ (raw ≤ℤ negsuc 639)

abbrev test : ℤ → Bool
test scaled = leb_ℤ (pos 85) scaled || leb_ℤ scaled (negsuc 39)

-- The quotient is at least 85 or at most -40.
test_iff : (raw : ℤ) → (test (scale_down raw 16) ≡ true) ↔ Alarming raw
unfolding scale_down
test_iff (pos n) =
    let down : scale_down (pos n) 16 ≡ pos (n / 16) = ground arith in
    rw down (λ h. ground (arith, h), λ h. ground (arith, h))
test_iff (negsuc n) = elim (Bool-cases (leb (suc n / 16) 0)) [
  | inl small ↦
      let down : scale_down (negsuc n) 16 ≡ pos 0 = ground arith in
      rw down (λ h. absurd (ground (arith, h)), λ h. absurd (ground (arith, h, small)))
  | inr large ↦
      let down : scale_down (negsuc n) 16 ≡ negsuc (suc n / 16 - 1) = ground arith in
      rw down (λ h. ground (arith, h, large), λ h. ground (arith, h, large))
]

alarm_iff :
    (raw : ℤ) → ((if test (scale_down raw 16) then critical else ok) ≡ critical) ↔ Alarming raw
alarm_iff raw = elim (Bool-cases (test (scale_down raw 16))) [
  | inl high ↦ rw high (λ _. (test_iff raw).0 high, λ _. refl)
  | inr low ↦ rw low (λ e. absurd (cc), λ a. absurd (cc (low, (test_iff raw).1 a)))
]

-- For the two temperature sensors and a raw value of 16 bits, the stored value is the raw value
-- over 16, cut towards zero and never wrapped; the state is critical exactly from 85 degrees up
-- (raw 1360) and from -40 degrees down (raw -640).
pub apply_calibration-Calibrates :
    (sensor_id : ℕ) (raw : ℤ) → sensor_id < 2 → IsInt16 raw → Calibrates sensor_id raw
unfolding apply_calibration calibration_of check_thresholds
apply_calibration-Calibrates zero raw h r = record {
  degrees = scale_down raw 16;
  scaled = temperature_scaled raw r;
  truncates = refl;
  alarms = alarm_iff raw;
}
apply_calibration-Calibrates (suc zero) raw h r = record {
  degrees = scale_down raw 16;
  scaled = temperature_scaled raw r;
  truncates = refl;
  alarms = alarm_iff raw;
}
apply_calibration-Calibrates (suc (suc i)) raw h r = absurd (omega arith)

divides_by_zero : (raw : ℤ) → scale no_cal raw ≡ none
unfolding scale
divides_by_zero raw = refl

-- For a raw value of 16 bits, the calibration has no defined result exactly for the sensors from
-- the third on: the table has no entry for them, or one with the divisor 0.
pub apply_calibration_undefined_iff :
    (sensor_id : ℕ) (raw : ℤ)
    → IsInt16 raw
    → (apply_calibration sensor_id raw ≡ none) ↔ (2 ≤ sensor_id)
unfolding apply_calibration calibration_of
apply_calibration_undefined_iff zero raw r =
    let fine = temperature_scaled raw r in (λ e. absurd (cc (fine, e)), λ h. absurd (omega arith))
apply_calibration_undefined_iff (suc zero) raw r =
    let fine = temperature_scaled raw r in (λ e. absurd (cc (fine, e)), λ h. absurd (omega arith))
apply_calibration_undefined_iff (suc (suc i)) raw r = (
  λ _. omega arith,
  λ _. elim (Bool-cases (ltb (suc (suc i)) 16)) [
    | inl inside ↦
        rw (apply_calibration, inside, get_or-replicate 14 i no_cal) (divides_by_zero raw)
    | inr outside ↦ rw (apply_calibration, outside) refl
  ],
)
