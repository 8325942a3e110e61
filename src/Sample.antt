-- ===== src/Sample.antt =====
-- Concrete values for the tests: a platform whose calls take a millisecond each and all succeed, a
-- flash chip that starts out empty, a state after start-up, and buffers of their sizes.
pub mod Fifo
use nic_ob_fw.Common.{
  ℕ, suc, ◌+◌, ◌-◌, ◌/◌, ◌≤◌, ◌<◌, ◌≡◌, ◌≢◌, ◌⊎◌, refl, ap, ◌∙◌, Bool, Bool-cases, inl, inr, List,
  [], ◌∷◌, true, false, none, arith, length, replicate, get_or, ltb, leb, ◌==◌, ◌&&◌, if◌then◌else◌,
}
use nic_ob_fw.Common.Int.{pos}
use nic_ob_fw.Types.{MctpPacket, PldmMsg}
use nic_ob_fw.Platform.{World, IsSized, Esp}
use nic_ob_fw.Firmware.{Firmware, fw_idle}
use nic_ob_fw.Protocol.Mctp.{Reassembly}
use nic_ob_fw.Flash.Ops.{FlashOp, enable, not_busy, erase, program}
use nic_ob_fw.Flash.Clock.{IsClock}
use nic_ob_fw.Flash.Nor.{Nor}
use nic_ob_fw.GenMgr.{fru_initial, empty_entry, sel_max_entries}
use nic_ob_fw.SensorMgr.{no_record}

abbrev pub packet : MctpPacket
packet = record {
  hdr_version = 1;
  dest_eid = 8;
  src_eid = 9;
  flags_seq = 0;
  payload_len = 5;
  reserved = 0;
  payload = 1 ∷ 2 ∷ 17 ∷ 0 ∷ 7 ∷ replicate 59 0;
}

abbrev pub message : PldmMsg
message = record {
  instance_id = 1;
  pldm_type = 2;
  command = 17;
  completion_code = 0;
  payload_len = 1;
  reserved = 0;
  payload = replicate 256 0;
}

abbrev pub reassembly : Reassembly
reassembly = record { buf = replicate 256 0; offset = 0; expected_seq = 0; active = false }

abbrev pub esp : Esp
esp = record {
  answer = λ w c. record {
    status = pos 0;
    value = length w;
    bytes = replicate 4 0;
    item = none;
    woken = false;
  };
  uninit = λ w. record {
    mctp_pkt = packet;
    pldm = message;
    tx_buf = replicate 32 0;
    resp_buf = replicate 64 0;
    rx_bytes = replicate 32 0;
  };
  tick_period_ms = 1;
  polls_in = λ ms. suc ms;
  ticks_of_ms = λ ms. ms;
}

pub esp-IsSized : (w : World) → IsSized (esp.uninit w)
esp-IsSized w = record {
  mctp_payload = refl;
  pldm_payload = refl;
  tx_buf = refl;
  resp_buf = refl;
  rx_bytes = refl;
}

unfoldable pub esp-IsClock : IsClock esp
esp-IsClock = record {
  time = length;
  reads = λ w. omega arith;
  flows = λ w c. omega arith;
  bounded = λ w c. omega arith;
  fine = length;
  fine_flows = λ w c. omega arith;
  delays = λ w. omega arith;
  passes = λ v w t h. omega (arith, h);
}

abbrev pub firmware : Firmware
firmware = record {
  world = [];
  bmc_hal = record { rx_callback = true; initialized = true };
  sensor_hal_initialized = true;
  nic_hal = record { spi_dev = 1; initialized = true };
  isr = record { bmc_rx_queue = 1; nic_event_queue = 2; sensor_alert_queue = 3 };
  mctp = reassembly;
  gen_mgr = record {
    fru = fru_initial;
    sel_log = replicate sel_max_entries empty_entry;
    sel_head = 0;
    sel_count = 0;
  };
  sensor_mgr = record {
    cache = record { records = replicate 16 no_record; count = 2 };
    cache_mutex = 5;
    alert_queue = 3;
    poll_timer = 6;
    poll_trigger = false;
  };
  flash_mgr = record { cmd_queue = 4; update_active = false; fw_state = fw_idle };
  bmc_mgr = record {
    bmc_rx_queue = 1;
    nic_event_queue = 2;
    flash_cmd_queue = 4;
    events = 7;
    last_bmc_seen_ms = 0;
    liveness_timeout_ms = 5000;
  };
  main = record {
    bmc_rx_queue = 1;
    nic_event_queue = 2;
    sensor_alert_queue = 3;
    flash_cmd_queue = 4;
  };
}

-- A chip whose bytes are a function of the address, and where a program sets whatever it is given. An
-- erase or a program takes effect if the latch is set and the chip is not busy; it clears the latch and
-- leaves the chip busy until a status says otherwise.
pub record Chip : Type 0 where
  pub bytes : ℕ → ℕ
  pub latch : Bool
  pub busy : Bool

abbrev wiped : ℕ → (ℕ → ℕ) → ℕ → ℕ
wiped a m i = if i / 4096 == a / 4096 then 0xff else m i

abbrev overwritten : ℕ → List ℕ → (ℕ → ℕ) → ℕ → ℕ
overwritten a bytes m i =
    if leb a i && ltb i (a + length bytes) then get_or bytes (i - a) 0 else m i

abbrev changed : ((ℕ → ℕ) → ℕ → ℕ) → Chip → Chip
changed f c =
    if (if c.busy then false else c.latch)
    then record { bytes = f c.bytes; latch = false; busy = true }
    else c

abbrev apply : FlashOp → Chip → Chip
apply enable c = if c.busy then c else record c { latch = true }
apply not_busy c = record c { busy = false }
apply (erase a) c = changed (wiped a) c
apply (program a bytes) c = changed (overwritten a bytes) c

pub changed_when_enabled :
    (f : (ℕ → ℕ) → ℕ → ℕ) (c : Chip)
    → c.busy ≡ false
    → c.latch ≡ true
    → (changed f c).bytes ≡ f c.bytes
changed_when_enabled f c idle set = rw (idle, set) refl

pub changed_keeps :
    (f : (ℕ → ℕ) → ℕ → ℕ) (c : Chip) (i : ℕ)
    → f c.bytes i ≡ c.bytes i
    → (changed f c).bytes i ≡ c.bytes i
changed_keeps f c i same = elim (Bool-cases (if c.busy then false else c.latch)) [
  | inl on ↦ rw on same
  | inr off ↦ rw off refl
]

pub chip_programs :
    (m : ℕ → ℕ) (a : ℕ) (bytes : List ℕ) (i : ℕ)
    → i < length bytes
    → overwritten a bytes m (a + i) ≡ get_or bytes i 0
chip_programs m a bytes i h =
    let place : a + i - a ≡ i = omega arith in
    let inside : (leb a (a + i) && ltb (a + i) (a + length bytes)) ≡ true = ground arith in
    rw (inside, place) refl

pub chip_erases : (m : ℕ → ℕ) (a i : ℕ) → i / 4096 ≡ a / 4096 → wiped a m i ≡ 0xff
chip_erases m a i h = ground (arith, h)

pub chip_erases_no_more : (m : ℕ → ℕ) (a i : ℕ) → i / 4096 ≢ a / 4096 → wiped a m i ≡ m i
chip_erases_no_more m a i h = ground (arith, h)

pub chip_keeps :
    (m : ℕ → ℕ) (a : ℕ) (bytes : List ℕ) (i : ℕ)
    → (i < a) ⊎ (a + length bytes ≤ i)
    → overwritten a bytes m i ≡ m i
chip_keeps m a bytes i h =
    let outside : (leb a i && ltb i (a + length bytes)) ≡ false = ground (arith, h) in
    rw outside refl

pub enable_leaves : (c : Chip) (i : ℕ) → (apply enable c).bytes i ≡ c.bytes i
enable_leaves c i = elim (Bool-cases c.busy) [ inl on ↦ rw on refl | inr off ↦ rw off refl ]

pub enable_sets :
    (c : Chip) → c.busy ≡ false → ((apply enable c).busy ≡ false) × ((apply enable c).latch ≡ true)
enable_sets c idle =
    let set : apply enable c ≡ record c { latch = true } = rw idle refl in
    (rw set idle, rw set refl)

abbrev pub chip : Nor
chip = record {
  Chip = Chip;
  byte_at = λ c i. c.bytes i;
  busy = λ c. c.busy;
  latch = λ c. c.latch;
  apply = apply;
  said_not_busy = λ c. refl;
  not_busy_keeps = λ c i. refl;
  enabled = enable_sets;
  enable_keeps = enable_leaves;
  erased = λ c a i idle set same.
      ap (λ (m : ℕ → ℕ). m i) (changed_when_enabled (wiped a) c idle set)
      ∙ chip_erases c.bytes a i same;
  erase_elsewhere =
      λ c a i other. changed_keeps (wiped a) c i (chip_erases_no_more c.bytes a i other);
  programmed = λ c a bytes i idle set page h byte clean.
      ap (λ (m : ℕ → ℕ). m (a + i)) (changed_when_enabled (overwritten a bytes) c idle set)
      ∙ chip_programs c.bytes a bytes i h;
  program_elsewhere = λ c a bytes i page h.
      changed_keeps (overwritten a bytes) c i (chip_keeps c.bytes a bytes i h);
}
