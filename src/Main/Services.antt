-- ===== src/Main/Services.antt =====
-- The managers and the interrupt handlers after their initialisation.
use nic_ob_fw.Common.{refl, [], ◌∷◌, true, false, some, inl, inr, arith, ◌==◌, Bool-cases}
use nic_ob_fw.Types.{RtosErr}
use nic_ob_fw.Platform.{
  Esp, event_group_create, tick_count, semaphore_create_mutex, timer_create, spi_device_transmit,
  gpio_config, gpio_install_isr_service, gpio_isr_handler_add,
}
use nic_ob_fw.Firmware.{Firmware, M}
use nic_ob_fw.Rtos.{rtos_event_group_create, rtos_get_tick_ms, rtos_mutex_create, rtos_timer_create}
use nic_ob_fw.Hal.Bmc.{bmc_hal_register_isr}
use nic_ob_fw.Hal.NicChip.{nic_chip_hal_spi_transfer, nic_chip_hal_register_alert_isr}
use nic_ob_fw.NicChipProtocol.{nic_chip_protocol_init}
use nic_ob_fw.SensorProtocol.{sensor_protocol_init}
use nic_ob_fw.ProtocolHdlr.{protocol_hdlr_init}
use nic_ob_fw.Protocol.Mctp.{mctp_init}
use nic_ob_fw.Protocol.Mctp.Contract.{IsValid}
use nic_ob_fw.GenMgr.{nic_gen_mgr_init}
use nic_ob_fw.GenMgr.Sel.{clear_sel-Logs}
use nic_ob_fw.Flash.{spi_flash_cmd_init, spi_flash_cmd_read_id}
use nic_ob_fw.BmcMgr.{bmc_mgr_init}
use nic_ob_fw.SensorMgr.{sensor_mgr_init}
use nic_ob_fw.FlashMgr.{nic_flash_mgr_init}
use nic_ob_fw.Isr.{isr_handlers_init}
use nic_ob_fw.Main.{init_services, init_isr}
use nic_ob_fw.Main.Order.{OnOk, Gives, Gives-some, Gives-failed, Gives-check}
use nic_ob_fw.Main.Steps.{WithHal, WithServices, IsReady, BmcMgrReady, SensorMgrReady}

module _ (esp : Esp) where
  abbrev BmcMgrDone : Firmware → Type 0
  BmcMgrDone s = WithHal s × BmcMgrReady s

  abbrev SensorMgrDone : Firmware → Type 0
  SensorMgrDone s = BmcMgrDone s × SensorMgrReady s

  abbrev start_bmc_mgr : Firmware → M RtosErr
  start_bmc_mgr s =
      bmc_mgr_init esp s.main.bmc_rx_queue s.main.nic_event_queue s.main.flash_cmd_queue

  bmc_mgr_init-Gives : (s : Firmware) → WithHal s → Gives (start_bmc_mgr s s) s (OnOk BmcMgrDone)
  unfolding bmc_mgr_init rtos_event_group_create protocol_hdlr_init mctp_init nic_gen_mgr_init
      nic_chip_protocol_init rtos_get_tick_ms
  bmc_mgr_init-Gives s h =
      let c1 = event_group_create in
      let fresh : IsValid (mctp_init s.mctp).1 = record { sized = refl; within = omega arith } in
      elim (Bool-cases ((esp.answer s.world c1).value == 0)) [
        | inl e1 ↦ rw e1 (Gives-failed (c1 ∷ []) (refl, refl) (tt, tt) (λ e. cc))
        | inr n1 ↦ rw n1 (
            Gives-some (tick_count ∷ c1 ∷ []) (refl, refl) (tt, (tt, tt))
              (λ ok. (h, (ground (arith, n1), refl, refl, refl, fresh, clear_sel-Logs s.gen_mgr))))
      ]

  sensor_mgr_init-Gives :
      (s : Firmware)
      → BmcMgrDone s
      → Gives (sensor_mgr_init esp s.main.sensor_alert_queue s) s (OnOk SensorMgrDone)
  unfolding sensor_mgr_init rtos_mutex_create rtos_timer_create sensor_protocol_init
  sensor_mgr_init-Gives s h =
      let c1 = semaphore_create_mutex in
      let c2 = timer_create (esp.ticks_of_ms 100) true in
      let w1 = c1 ∷ s.world in
      elim (Bool-cases ((esp.answer s.world c1).value == 0)) [
        | inl e1 ↦ rw e1 (Gives-failed (c1 ∷ []) (refl, refl) (tt, tt) (λ e. cc))
        | inr n1 ↦ elim (Bool-cases ((esp.answer w1 c2).value == 0)) [
          | inl e2 ↦ rw (n1, e2) (Gives-failed (c2 ∷ c1 ∷ []) (refl, refl) (tt, (tt, tt)) (λ e. cc))
          | inr n2 ↦
              rw (n1, n2)
                (Gives-some (c2 ∷ c1 ∷ []) (refl, refl) (tt, (tt, tt))
                  (λ ok. (h, (ground (arith, n1), ground (arith, n2), refl, refl))))
        ]
      ]

  nic_flash_mgr_init-Gives :
      (s : Firmware)
      → SensorMgrDone s
      → Gives (nic_flash_mgr_init esp s.main.flash_cmd_queue s) s (OnOk WithServices)
  unfolding nic_flash_mgr_init spi_flash_cmd_init spi_flash_cmd_read_id nic_chip_hal_spi_transfer
  nic_flash_mgr_init-Gives s h =
      let spi = h.0.0.1.2 in
      let c1 = spi_device_transmit s.nic_hal.spi_dev (some (0x9f ∷ 0 ∷ 0 ∷ 0 ∷ [])) true 32 in
      simp spi (
        Gives-some (c1 ∷ []) (refl, refl) (tt, tt)
          (λ ok. (h.0.0.0, h.0.0.1, h.0.1, h.1, (refl, refl))))

  pub init_services-Gives :
      (s : Firmware) → WithHal s → Gives (init_services esp s) s (OnOk WithServices)
  unfolding init_services
  init_services-Gives s h =
      Gives-check BmcMgrDone (start_bmc_mgr s) _ s (bmc_mgr_init-Gives s h) (λ t b.
        Gives-check SensorMgrDone (sensor_mgr_init esp t.main.sensor_alert_queue) _ t
          (sensor_mgr_init-Gives t b)
          (λ u m.
            Gives-check WithServices (nic_flash_mgr_init esp u.main.flash_cmd_queue) _ u
              (nic_flash_mgr_init-Gives u m) (λ v w. Gives-some [] (refl, refl) tt (λ ok. w))))

  pub init_isr-Gives : (s : Firmware) → WithServices s → Gives (init_isr esp s) s (OnOk IsReady)
  unfolding init_isr isr_handlers_init bmc_hal_register_isr nic_chip_hal_register_alert_isr
  init_isr-Gives s h =
      Gives-some (gpio_isr_handler_add 5 ∷ gpio_install_isr_service ∷ gpio_config 5 false ∷ [])
        (refl, refl) (tt, (tt, (tt, tt)))
        (λ ok. (h.0, h.1, h.2, h.3, h.4, (refl, refl, refl, refl, (s.world, refl))))
