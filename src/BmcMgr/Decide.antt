-- ===== src/BmcMgr/Decide.antt =====
-- What each command decides: the content and the completion code of the response.
use nic_ob_fw.Common.{
  ℕ, ◌≤◌, ◌<◌, ◌≡◌, refl, ◌∙◌, List, [], ◌∷◌, ◌++◌, true, false, some, inl, inr, arith, ltb, ltb→lt,
  lt→ltb, ◌==◌, ==_iff, if◌then◌else◌, get_or, take, length, overwrite, memcpy_fits,
  take-overwrite_start, length-overwrite, take_all, Bool-cases,
}
use nic_ob_fw.Types.{SensorRecord, PldmMsg}
use nic_ob_fw.Platform.{
  Esp, HwCall, is_pass, flash_item, queue_send, semaphore_take, semaphore_give,
}
use nic_ob_fw.Firmware.{Firmware}
use nic_ob_fw.Rtos.{rtos_queue_send, rtos_mutex_take, rtos_mutex_give}
use nic_ob_fw.SensorMgr.{sensor_mgr_get_cached, no_record}
use nic_ob_fw.BmcMgr.{dispatch_command}
use nic_ob_fw.BmcMgr.Wire.{Response, bare, record_bytes, update_command}

-- The sensor that a request asks about.
abbrev pub asked_sensor : PldmMsg → ℕ
asked_sensor msg = if ltb 0 msg.payload_len then get_or msg.payload 0 0 else 0

abbrev pub IsReading : PldmMsg → Type 0
IsReading msg = (msg.pldm_type ≡ 2) × (msg.command ≡ 0x11)

abbrev pub IsUpdate : PldmMsg → Type 0
IsUpdate msg = (msg.pldm_type ≡ 5) × (msg.command ≡ 0x10)

-- The call that posts an update command, without waiting.
abbrev pub update_call : Esp → PldmMsg → Firmware → HwCall
update_call esp msg s =
    queue_send s.bmc_mgr.flash_cmd_queue (flash_item (update_command msg)) (esp.ticks_of_ms 0)

-- The calls made, the newest first, the completion code and the content of the answer to a request.
pub data Decides (esp : Esp) (msg : PldmMsg) (s : Firmware)
    : List HwCall → ℕ → List ℕ → Type 0 where
  reading :
      IsReading msg
      → asked_sensor msg < s.sensor_mgr.cache.count
      → Decides esp msg s
          (semaphore_give s.sensor_mgr.cache_mutex
            ∷ semaphore_take s.sensor_mgr.cache_mutex 0xffff_ffff
            ∷ [])
          0
          (record_bytes (get_or s.sensor_mgr.cache.records (asked_sensor msg) no_record))
  no_such_sensor :
      IsReading msg → s.sensor_mgr.cache.count ≤ asked_sensor msg → Decides esp msg s [] 1 []
  update_queued :
      IsUpdate msg
      → is_pass (esp.answer s.world (update_call esp msg s)) ≡ true
      → Decides esp msg s (update_call esp msg s ∷ []) 0 []
  update_refused :
      IsUpdate msg
      → is_pass (esp.answer s.world (update_call esp msg s)) ≡ false
      → Decides esp msg s (update_call esp msg s ∷ []) 1 []
  unknown : (IsReading msg → ⊥) → (IsUpdate msg → ⊥) → Decides esp msg s [] 4 []

-- The decision as the code hands it on: a buffer, a length and a completion code.
pub record Decided (esp : Esp) (msg : PldmMsg) (buf : List ℕ) (s : Firmware) : Type 0 where
  pub response : Response
  pub calls : List HwCall
  pub returns :
      dispatch_command esp msg buf s ≡ some (response, record s { world = calls ++ s.world })
  pub sized : response.len ≤ length response.buf
  pub short : response.len ≤ 16
  pub decides : Decides esp msg s calls response.cc (take response.len response.buf)

length-record_bytes : (rec : SensorRecord) → length (record_bytes rec) ≡ 16
unfolding record_bytes
length-record_bytes rec = refl

module _ (esp : Esp) (msg : PldmMsg) (buf : List ℕ) (s : Firmware) (sized : length buf ≡ 64)
    (inside : s.sensor_mgr.cache.count ≤ 16) where
  reading-Decided : msg.pldm_type ≡ 2 → msg.command ≡ 0x11 → Decided esp msg buf s
  unfolding dispatch_command sensor_mgr_get_cached rtos_mutex_take rtos_mutex_give
  reading-Decided type command =
      elim (Bool-cases (ltb (asked_sensor msg) s.sensor_mgr.cache.count)) [
        | inl known ↦
            let rec = get_or s.sensor_mgr.cache.records (asked_sensor msg) no_record in
            let len = length-record_bytes rec in
            let in_array = lt→ltb (asked_sensor msg) 16 (ground (arith, known, inside)) in
            let packed =
              memcpy_fits buf 0 (record_bytes rec) 16 (omega (arith, sized)) (omega (arith, len)) in
            let whole : take 16 (overwrite buf 0 (record_bytes rec) 16) ≡ record_bytes rec =
              take-overwrite_start buf (record_bytes rec) 16 (omega (arith, sized))
                (omega (arith, len))
              ∙ take_all 16 (record_bytes rec) (omega (arith, len)) in
            record {
              response = record { buf = overwrite buf 0 (record_bytes rec) 16; len = 16; cc = 0 };
              calls =
                  semaphore_give s.sensor_mgr.cache_mutex
                  ∷ semaphore_take s.sensor_mgr.cache_mutex 0xffff_ffff
                  ∷ [];
              returns = rw (type, command, known, in_array, packed) refl;
              sized = omega (
                arith,
                length-overwrite buf 0 (record_bytes rec) 16 (omega (arith, sized))
                    (omega (arith, len)),
                sized,
              );
              short = omega arith;
              decides = rw whole (reading (type, command) (ltb→lt _ _ known));
            }
        | inr beyond ↦ record {
          response = bare buf 1;
          calls = [];
          returns = rw (type, command, beyond) refl;
          sized = omega arith;
          short = omega arith;
          decides = no_such_sensor (type, command) (ground (arith, beyond));
        }
      ]

  update-Decided : msg.pldm_type ≡ 5 → msg.command ≡ 0x10 → Decided esp msg buf s
  unfolding dispatch_command rtos_queue_send
  update-Decided type command =
      elim (Bool-cases (is_pass (esp.answer s.world (update_call esp msg s)))) [
        | inl sent ↦ record {
          response = bare buf 0;
          calls = update_call esp msg s ∷ [];
          returns = rw (type, command, sent) refl;
          sized = omega arith;
          short = omega arith;
          decides = update_queued (type, command) sent;
        }
        | inr refused ↦ record {
          response = bare buf 1;
          calls = update_call esp msg s ∷ [];
          returns = rw (type, command, refused) refl;
          sized = omega arith;
          short = omega arith;
          decides = update_refused (type, command) refused;
        }
      ]

  unknown-Decided :
      (IsReading msg → ⊥)
      → (IsUpdate msg → ⊥)
      → dispatch_command esp msg buf s ≡ some (bare buf 4, s)
      → Decided esp msg buf s
  unknown-Decided no_reading no_update e = record {
    response = bare buf 4;
    calls = [];
    returns = e;
    sized = omega arith;
    short = omega arith;
    decides = unknown no_reading no_update;
  }

  pub dispatch_command-Decided : Decided esp msg buf s
  unfolding dispatch_command
  dispatch_command-Decided = elim (Bool-cases (msg.pldm_type == 2)) [
    | inl sensor ↦
        let type = (==_iff msg.pldm_type 2).0 sensor in
        elim (Bool-cases (msg.command == 0x11)) [
          | inl get ↦ reading-Decided type ((==_iff msg.command 0x11).0 get)
          | inr other ↦
              unknown-Decided (λ r. ground (arith, other, r)) (λ u. ground (arith, type, u))
                (rw (sensor, other) refl)
        ]
    | inr no_sensor ↦ elim (Bool-cases (msg.pldm_type == 5)) [
      | inl update ↦
          let type = (==_iff msg.pldm_type 5).0 update in
          elim (Bool-cases (msg.command == 0x10)) [
            | inl request ↦ update-Decided type ((==_iff msg.command 0x10).0 request)
            | inr other ↦
                unknown-Decided (λ r. ground (arith, type, r)) (λ u. ground (arith, other, u))
                  (rw (no_sensor, update, other) refl)
          ]
      | inr no_update ↦
          unknown-Decided (λ r. ground (arith, no_sensor, r)) (λ u. ground (arith, no_update, u))
            (rw (no_sensor, no_update) refl)
    ]
  ]
