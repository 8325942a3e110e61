-- ===== src/BmcMgr.antt =====
-- components/bmc_mgr/src/bmc_mgr.c: the thread that answers the BMC and logs the events of the NIC.
pub mod Wire
pub mod Dispatch
pub mod Decide
pub mod Liveness
pub mod Handle
pub mod Drain
pub mod Replies
pub mod Events
pub mod Round
pub mod Encoding
mod Tests
use nic_ob_fw.Common.{
  ℕ, zero, suc, List, Bool, true, false, Option, some, none, ltb, bit_or, ◌==◌, if◌then◌else◌,
  sub32, get_or, memcpy,
}
use nic_ob_fw.Types.{
  RtosErr, rtos_ok, rtos_err_nomem, FlashCmd, NicEventMsg, BmcRxMsg, PldmMsg, msg_type_code,
  liveness,
}
use nic_ob_fw.Platform.{Esp, Item, rx_item, nic_item, flash_item}
use nic_ob_fw.Firmware.{M, pure, fault, ◌>>=◌, ◌>>◌, get, modify, defined}
use nic_ob_fw.Rtos.{
  rtos_no_wait, rtos_queue_send, rtos_queue_receive, rtos_event_group_create, rtos_event_group_wait,
  rtos_get_tick_ms,
}
use nic_ob_fw.Protocol.Pldm.{
  pldm_get_type, pldm_get_command, pldm_type_sensor_monitoring, pldm_type_fw_update,
  pldm_cmd_get_sensor_reading, pldm_cmd_request_update, pldm_cc_success, pldm_cc_error,
  pldm_cc_invalid_cmd,
}
use nic_ob_fw.ProtocolHdlr.{
  protocol_hdlr_init, protocol_hdlr_process_rx, protocol_hdlr_send_response,
}
use nic_ob_fw.GenMgr.{nic_gen_mgr_init, nic_gen_mgr_handle_nic_event, nic_gen_mgr_log_sel_event}
use nic_ob_fw.SensorMgr.{sensor_mgr_get_cached}
use nic_ob_fw.BmcMgr.Wire.{Response, bare, record_bytes, update_command}

abbrev bit_bmc_rx : ℕ
bit_bmc_rx = 1

abbrev bit_nic_event : ℕ
bit_nic_event = 2

module _ (esp : Esp) where
  -- The typed wrappers, which the compiler inlines.
  abbrev pub bmc_rx_queue_receive : ℕ → M (RtosErr × Option Item)
  bmc_rx_queue_receive timeout_ms = do
    s ← get
    rtos_queue_receive esp s.bmc_mgr.bmc_rx_queue timeout_ms

  abbrev pub nic_event_queue_receive : ℕ → M (RtosErr × Option Item)
  nic_event_queue_receive timeout_ms = do
    s ← get
    rtos_queue_receive esp s.bmc_mgr.nic_event_queue timeout_ms

  abbrev pub flash_cmd_queue_send : FlashCmd → ℕ → M RtosErr
  flash_cmd_queue_send cmd timeout_ms = do
    s ← get
    rtos_queue_send esp s.bmc_mgr.flash_cmd_queue (flash_item cmd) timeout_ms

  unfoldable pub liveness_update : M (Unit {0})
  liveness_update = do
    now ← rtos_get_tick_ms esp
    modify λ s. record s { bmc_mgr = record s.bmc_mgr { last_bmc_seen_ms = now } }

  unfoldable pub liveness_check : M Bool
  liveness_check = do
    now ← rtos_get_tick_ms esp
    s ← get
    pure (ltb (sub32 now s.bmc_mgr.last_bmc_seen_ms) s.bmc_mgr.liveness_timeout_ms)

  unfoldable pub get_sensor_reading : PldmMsg → List ℕ → M Response
  get_sensor_reading msg resp_buf = do
    let sensor_id = if ltb 0 msg.payload_len then get_or msg.payload 0 0 else 0
    r ← sensor_mgr_get_cached esp sensor_id
    (elim r.0 [
      | rtos_ok ↦ elim r.1 [
        | some rec ↦ do
          buf ← defined (memcpy resp_buf 0 (record_bytes rec) 16)
          pure (record { buf = buf; len = 16; cc = pldm_cc_success })
        | none ↦ fault
      ]
      | err ↦ pure (bare resp_buf pldm_cc_error)
    ])

  unfoldable pub request_update : PldmMsg → List ℕ → M Response
  unfolding update_command
  request_update msg resp_buf = do
    err ← flash_cmd_queue_send (update_command msg) rtos_no_wait
    (elim err [
      | rtos_ok ↦ pure (bare resp_buf pldm_cc_success)
      | failure ↦ pure (bare resp_buf pldm_cc_error)
    ])

  -- The nested `switch`.
  unfoldable pub dispatch_command : PldmMsg → List ℕ → M Response
  unfolding get_sensor_reading request_update
  dispatch_command msg resp_buf =
      if pldm_get_type msg == pldm_type_sensor_monitoring
      then (if pldm_get_command msg == pldm_cmd_get_sensor_reading
          then get_sensor_reading msg resp_buf
          else pure (bare resp_buf pldm_cc_invalid_cmd))
      else if pldm_get_type msg == pldm_type_fw_update
      then (if pldm_get_command msg == pldm_cmd_request_update
          then request_update msg resp_buf
          else pure (bare resp_buf pldm_cc_invalid_cmd))
      else pure (bare resp_buf pldm_cc_invalid_cmd)

  unfoldable pub dispatch_pldm : PldmMsg → M (Unit {0})
  unfolding dispatch_command protocol_hdlr_send_response
  dispatch_pldm msg = do
    s ← get
    r ← dispatch_command msg (esp.uninit s.world).resp_buf
    protocol_hdlr_send_response esp msg (some r.buf) r.len r.cc
    pure tt

  unfoldable pub handle_nic_event : NicEventMsg → M (Unit {0})
  handle_nic_event event = do nic_gen_mgr_handle_nic_event esp event; pure tt

  unfoldable pub bmc_mgr_init : ℕ → ℕ → ℕ → M RtosErr
  unfolding liveness_update
  bmc_mgr_init bmc_rx_queue nic_event_queue flash_cmd_queue = do
    modify λ s. record s {
      bmc_mgr = record s.bmc_mgr {
        bmc_rx_queue = bmc_rx_queue;
        nic_event_queue = nic_event_queue;
        flash_cmd_queue = flash_cmd_queue;
      };
    }
    events ← rtos_event_group_create esp
    modify λ s. record s { bmc_mgr = record s.bmc_mgr { events = events } }
    if events == 0 then pure rtos_err_nomem else (do
      protocol ← protocol_hdlr_init
      (elim protocol [
        | rtos_ok ↦ do
          gen ← nic_gen_mgr_init
          (elim gen [ rtos_ok ↦ do liveness_update; pure rtos_ok | err ↦ pure err ])
        | err ↦ pure err
      ]))

  -- The body of the first inner loop, for one message received.
  unfoldable pub handle_bmc_msg : BmcRxMsg → M (Unit {0})
  unfolding liveness_update dispatch_pldm
  handle_bmc_msg bmc_msg = do
    liveness_update
    s ← get
    rx ← protocol_hdlr_process_rx esp bmc_msg (esp.uninit s.world).pldm
    if rx.0 then dispatch_pldm rx.1 else pure tt

  -- The two inner loops, each for at most `fuel` items: how long they go on depends on the interrupts
  -- that fill the queues meanwhile. `none` is also what is left when the fuel runs out.
  unfoldable pub drain_bmc_rx : ℕ → M (Unit {0})
  unfolding handle_bmc_msg
  drain_bmc_rx zero = fault
  drain_bmc_rx (suc fuel) = do
    r ← bmc_rx_queue_receive rtos_no_wait
    (elim r.0 [
      | rtos_ok ↦ elim r.1 [
        | some item ↦ elim item [
          | rx_item bmc_msg ↦ do handle_bmc_msg bmc_msg; drain_bmc_rx fuel
          | other ↦ fault
        ]
        | none ↦ fault
      ]
      | err ↦ pure tt
    ])

  unfoldable pub drain_nic_events : ℕ → M (Unit {0})
  unfolding handle_nic_event
  drain_nic_events zero = fault
  drain_nic_events (suc fuel) = do
    r ← nic_event_queue_receive rtos_no_wait
    (elim r.0 [
      | rtos_ok ↦ elim r.1 [
        | some item ↦ elim item [
          | nic_item event ↦ do handle_nic_event event; drain_nic_events fuel
          | other ↦ fault
        ]
        | none ↦ fault
      ]
      | err ↦ pure tt
    ])

  -- The end of a round: the silence of the BMC is logged.
  unfoldable pub liveness_round : M (Unit {0})
  unfolding liveness_check
  liveness_round = do
    alive ← liveness_check
    if alive
        then pure tt
        else (do nic_gen_mgr_log_sel_event esp (msg_type_code liveness) 0; pure tt)

  -- One round of `bmc_mgr_task`.
  unfoldable pub bmc_mgr_round : ℕ → M (Unit {0})
  unfolding drain_bmc_rx drain_nic_events liveness_round
  bmc_mgr_round fuel = do
    s ← get
    rtos_event_group_wait esp s.bmc_mgr.events (bit_or bit_bmc_rx bit_nic_event) true false 1000
    drain_bmc_rx fuel
    drain_nic_events fuel
    liveness_round
