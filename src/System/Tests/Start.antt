-- ===== src/System/Tests/Start.antt =====
-- The whole run from power-on: the start-up, and then a request of the BMC that comes in over the bus
-- and is answered.
use nic_ob_fw.Common.{◌≡◌, refl, ◌++◌, false, some, arith, replicate, for_loop, memcpy, overwrite}
use nic_ob_fw.Types.{rtos_ok, BmcRxMsg}
use nic_ob_fw.Platform.{rx_item}
use nic_ob_fw.Firmware.{Firmware, fw_idle}
use nic_ob_fw.Sample.{esp-IsSized, firmware}
use nic_ob_fw.Sample.Fifo.{fifo, fifo-IsQueues}
use nic_ob_fw.GenMgr.{clear_sel, nic_gen_mgr_init}
use nic_ob_fw.Rtos.{
  rtos_queue_create, rtos_timer_start, rtos_event_group_create, rtos_get_tick_ms, rtos_mutex_create,
  rtos_timer_create, rtos_mutex_take, rtos_mutex_give, rtos_queue_receive, rtos_queue_send_from_isr,
  rtos_yield_from_isr,
}
use nic_ob_fw.Hal.Bmc.{bmc_hal_init, bmc_hal_transmit, bmc_hal_register_isr}
use nic_ob_fw.Hal.Sensor.{sensor_hal_init}
use nic_ob_fw.Hal.NicChip.{
  nic_chip_hal_init, nic_chip_hal_spi_transfer, nic_chip_hal_register_alert_isr,
}
use nic_ob_fw.Protocol.Mctp.{
  mctp_init, mctp_process_rx, check_fragment, begin_message, append_payload, finish_message, is_som,
  is_eom, extract_seq, mctp_frame_tx,
}
use nic_ob_fw.Protocol.Pldm.{pldm_init, pldm_parse, pldm_build_response}
use nic_ob_fw.ProtocolHdlr.{
  protocol_hdlr_init, protocol_hdlr_process_rx, protocol_hdlr_send_response,
}
use nic_ob_fw.NicChipProtocol.{nic_chip_protocol_init}
use nic_ob_fw.SensorProtocol.{sensor_protocol_init}
use nic_ob_fw.SensorMgr.{sensor_mgr_start, no_record, sensor_mgr_init, sensor_mgr_get_cached}
use nic_ob_fw.FlashMgr.{nic_flash_mgr_init}
use nic_ob_fw.Flash.{spi_flash_cmd_init, spi_flash_cmd_read_id}
use nic_ob_fw.BmcMgr.{bmc_mgr_init, liveness_update, handle_bmc_msg, dispatch_pldm}
use nic_ob_fw.BmcMgr.Wire.{record_bytes}
use nic_ob_fw.Isr.{isr_handlers_init, bmc_i2c_rx_isr, copy_block, block_length}
use nic_ob_fw.Main.{init_queues, init_hal, init_services, init_isr}
use nic_ob_fw.System.{IsDistinct}
use nic_ob_fw.System.Steps.{
  Reach, sensor_mgr_starts, bus_interrupt, bmc_mgr_takes_message, at_start, one_more,
}
use nic_ob_fw.System.Start.{IsReset, SetUp, Operates, app_main-Reach}
use nic_ob_fw.System.Tests.{request}

-- The program's start, and the state after it.
abbrev reset : Firmware
reset = record firmware {
  bmc_hal = record { rx_callback = false; initialized = false };
  sensor_hal_initialized = false;
  nic_hal = record { spi_dev = 0; initialized = false };
  isr = record { bmc_rx_queue = 0; nic_event_queue = 0; sensor_alert_queue = 0 };
  sensor_mgr = record {
    cache = record { records = replicate 16 no_record; count = 0 };
    cache_mutex = 0;
    alert_queue = 0;
    poll_timer = 0;
    poll_trigger = false;
  };
  flash_mgr = record { cmd_queue = 0; update_active = false; fw_state = fw_idle };
  bmc_mgr = record {
    bmc_rx_queue = 0;
    nic_event_queue = 0;
    flash_cmd_queue = 0;
    events = 0;
    last_bmc_seen_ms = 0;
    liveness_timeout_ms = 5000;
  };
  main = record {
    bmc_rx_queue = 0;
    nic_event_queue = 0;
    sensor_alert_queue = 0;
    flash_cmd_queue = 0;
  };
}

reset-IsReset : IsReset reset
reset-IsReset = record { no_calls = refl; inactive = refl }

abbrev request_msg : BmcRxMsg
request_msg = record { bytes = request ++ replicate 24 0; len = 8 }

-- The set-up, the first step of the sensor manager's thread, the interrupt that posts the request, and the
-- thread that takes it.
record Run : Type 0 where
  ready : Firmware
  set_up : SetUp fifo reset ready
  distinct : IsDistinct ready.main
  timed : Firmware
  timer : sensor_mgr_start fifo ready ≡ some (rtos_ok, timed)
  posted : Firmware
  interrupt : bmc_i2c_rx_isr fifo request 8 timed ≡ some (tt, posted)
  taken : Firmware
  receives :
      rtos_queue_receive fifo posted.bmc_mgr.bmc_rx_queue 0 posted
      ≡ some ((rtos_ok, some (rx_item request_msg)), taken)
  answered : Firmware
  handles : handle_bmc_msg fifo request_msg taken ≡ some (tt, answered)

run : Run
unfolding init_queues init_hal init_services init_isr rtos_queue_create sensor_mgr_start
    rtos_timer_start bmc_hal_init sensor_hal_init nic_chip_hal_init bmc_mgr_init
    rtos_event_group_create protocol_hdlr_init mctp_init pldm_init nic_gen_mgr_init clear_sel
    nic_chip_protocol_init liveness_update rtos_get_tick_ms sensor_mgr_init rtos_mutex_create
    rtos_timer_create sensor_protocol_init nic_flash_mgr_init spi_flash_cmd_init
    spi_flash_cmd_read_id nic_chip_hal_spi_transfer isr_handlers_init bmc_hal_register_isr
    nic_chip_hal_register_alert_isr bmc_i2c_rx_isr copy_block block_length for_loop
    rtos_queue_send_from_isr rtos_yield_from_isr rtos_queue_receive handle_bmc_msg
    protocol_hdlr_process_rx mctp_process_rx check_fragment begin_message append_payload
    finish_message is_som is_eom extract_seq pldm_parse dispatch_pldm sensor_mgr_get_cached
    rtos_mutex_take rtos_mutex_give record_bytes memcpy overwrite protocol_hdlr_send_response
    pldm_build_response mctp_frame_tx bmc_hal_transmit
run = record {
  ready = _;
  set_up = record {
    with_queues = _;
    with_hal = _;
    with_services = _;
    queues = refl;
    hal = refl;
    services = refl;
    isr = refl;
  };
  distinct = (omega arith, omega arith, omega arith);
  timed = _;
  timer = refl;
  posted = _;
  interrupt = refl;
  taken = _;
  receives = refl;
  answered = _;
  handles = refl;
}

conversation : Reach fifo run.ready run.answered
conversation =
    one_more _ run.posted _
      (one_more _ run.timed _
        (one_more _ run.ready _ (at_start _) (sensor_mgr_starts rtos_ok run.timer))
        (bus_interrupt request 8 (omega arith) run.interrupt))
      (bmc_mgr_takes_message request_msg run.taken run.receives run.handles)

app_main-Reach_example : Operates fifo reset run.ready run.answered
app_main-Reach_example =
    app_main-Reach fifo reset run.ready run.answered esp-IsSized fifo-IsQueues reset-IsReset
      run.set_up run.distinct conversation
