-- ===== src/Main/Steps.antt =====
-- The five steps of the start-up: what each of them leaves when it succeeds.
use nic_ob_fw.Common.{
  ℕ, ◌≡◌, ◌≢◌, refl, [], ◌∷◌, Bool, true, false, inl, inr, arith, ◌==◌, Bool-cases, replicate,
}
use nic_ob_fw.Platform.{
  Esp, HwCall, World, is_esp_ok, queue_create, i2c_param_config, i2c_driver_install,
  spi_bus_initialize, spi_bus_add_device, gpio_config, gpio_install_isr_service,
  gpio_isr_handler_add,
}
use nic_ob_fw.Firmware.{Firmware, fw_idle}
use nic_ob_fw.Protocol.Mctp.Contract.{IsValid}
use nic_ob_fw.GenMgr.Sel.{Logs}
use nic_ob_fw.Rtos.{rtos_queue_create}
use nic_ob_fw.Hal.Bmc.{bmc_hal_init}
use nic_ob_fw.Hal.Sensor.{sensor_hal_init}
use nic_ob_fw.Hal.NicChip.{nic_chip_hal_init}
use nic_ob_fw.SensorMgr.{no_record}
use nic_ob_fw.Main.{init_queues, init_hal}
use nic_ob_fw.Main.Order.{OnOk, Gives, Gives-some, Gives-failed, Gives-check}

-- The four queues exist.
abbrev pub QueuesReady : Firmware → Type 0
QueuesReady s =
    (s.main.bmc_rx_queue ≢ 0)
    × (s.main.nic_event_queue ≢ 0)
    × (s.main.sensor_alert_queue ≢ 0)
    × (s.main.flash_cmd_queue ≢ 0)

-- The three drivers are initialised.
abbrev pub HalReady : Firmware → Type 0
HalReady s =
    (s.bmc_hal.initialized ≡ true)
    × (s.sensor_hal_initialized ≡ true)
    × (s.nic_hal.initialized ≡ true)

-- Each manager has what it waits on, and the queues that it shares with the others; the reassembly is
-- well-formed, and the log is empty.
abbrev pub BmcMgrReady : Firmware → Type 0
BmcMgrReady s =
    (s.bmc_mgr.events ≢ 0)
    × (s.bmc_mgr.bmc_rx_queue ≡ s.main.bmc_rx_queue)
    × (s.bmc_mgr.nic_event_queue ≡ s.main.nic_event_queue)
    × (s.bmc_mgr.flash_cmd_queue ≡ s.main.flash_cmd_queue)
    × IsValid s.mctp
    × Logs s.gen_mgr []

abbrev pub SensorMgrReady : Firmware → Type 0
SensorMgrReady s =
    (s.sensor_mgr.cache_mutex ≢ 0)
    × (s.sensor_mgr.poll_timer ≢ 0)
    × (s.sensor_mgr.alert_queue ≡ s.main.sensor_alert_queue)
    × (s.sensor_mgr.cache ≡ record { records = replicate 16 no_record; count = 2 })

abbrev pub FlashMgrReady : Firmware → Type 0
FlashMgrReady s =
    (s.flash_mgr.cmd_queue ≡ s.main.flash_cmd_queue) × (s.flash_mgr.fw_state ≡ fw_idle)

-- The interrupt handlers post to the queues that the managers read. The last calls asked the GPIO driver
-- for the interrupts of the alert pin; whether it agreed, the source does not look at.
abbrev AlertAsked : World → Type 0
AlertAsked w =
    (before : World) × (w
      ≡ gpio_isr_handler_add 5 ∷ gpio_install_isr_service ∷ gpio_config 5 false ∷ before)

abbrev pub IsrReady : Firmware → Type 0
IsrReady s =
    (s.isr.bmc_rx_queue ≡ s.main.bmc_rx_queue)
    × (s.isr.nic_event_queue ≡ s.main.nic_event_queue)
    × (s.isr.sensor_alert_queue ≡ s.main.sensor_alert_queue)
    × (s.bmc_hal.rx_callback ≡ true)
    × AlertAsked s.world

abbrev pub WithHal : Firmware → Type 0
WithHal s = QueuesReady s × HalReady s

abbrev pub WithServices : Firmware → Type 0
WithServices s = QueuesReady s × HalReady s × BmcMgrReady s × SensorMgrReady s × FlashMgrReady s

abbrev pub IsReady : Firmware → Type 0
IsReady s =
    QueuesReady s × HalReady s × BmcMgrReady s × SensorMgrReady s × FlashMgrReady s × IsrReady s

module _ (esp : Esp) where
  -- What a call returns after some others.
  abbrev value_of : World → HwCall → ℕ
  value_of w c = (esp.answer w c).value

  pub init_queues-Gives : (s : Firmware) → Gives (init_queues esp s) s (OnOk QueuesReady)
  unfolding init_queues rtos_queue_create
  init_queues-Gives s =
      let c1 = queue_create 8 36 in
      let c2 = queue_create 4 12 in
      let c4 = queue_create 2 12 in
      let w1 = c1 ∷ s.world in
      let w2 = c2 ∷ w1 in
      let w3 = c2 ∷ w2 in
      elim (Bool-cases (value_of s.world c1 == 0)) [
        | inl e1 ↦ rw e1 (Gives-failed (c1 ∷ []) (refl, refl) (tt, tt) (λ e. cc))
        | inr n1 ↦ elim (Bool-cases (value_of w1 c2 == 0)) [
          | inl e2 ↦ rw (n1, e2) (Gives-failed (c2 ∷ c1 ∷ []) (refl, refl) (tt, (tt, tt)) (λ e. cc))
          | inr n2 ↦ elim (Bool-cases (value_of w2 c2 == 0)) [
            | inl e3 ↦
                rw (n1, n2, e3)
                  (Gives-failed (c2 ∷ c2 ∷ c1 ∷ []) (refl, refl) (tt, (tt, (tt, tt))) (λ e. cc))
            | inr n3 ↦ elim (Bool-cases (value_of w3 c4 == 0)) [
              | inl e4 ↦
                  rw (n1, n2, n3, e4)
                    (Gives-failed (c4 ∷ c2 ∷ c2 ∷ c1 ∷ []) (refl, refl) (tt, (tt, (tt, (tt, tt))))
                      (λ e. cc))
              | inr n4 ↦
                  rw (n1, n2, n3, n4)
                    (Gives-some (c4 ∷ c2 ∷ c2 ∷ c1 ∷ []) (refl, refl) (tt, (tt, (tt, (tt, tt))))
                      (λ ok. (
                        ground (arith, n1),
                        ground (arith, n2),
                        ground (arith, n3),
                        ground (arith, n4),
                      )))
            ]
          ]
        ]
      ]

  fine : World → HwCall → Bool
  fine w c = is_esp_ok (esp.answer w c)

  -- The two I2C drivers and the SPI driver.
  abbrev BmcHalDone : Firmware → Type 0
  BmcHalDone s = QueuesReady s × (s.bmc_hal.initialized ≡ true)

  abbrev SensorHalDone : Firmware → Type 0
  SensorHalDone s = BmcHalDone s × (s.sensor_hal_initialized ≡ true)

  bmc_hal_init-Gives :
      (s : Firmware) → QueuesReady s → Gives (bmc_hal_init esp 0x20 s) s (OnOk BmcHalDone)
  unfolding bmc_hal_init fine
  bmc_hal_init-Gives s q =
      let c1 = i2c_param_config 0 0x20 in
      let c2 = i2c_driver_install 0 256 256 in
      let w1 = c1 ∷ s.world in
      elim (Bool-cases (fine s.world c1)) [
        | inr e1 ↦ rw e1 (Gives-failed (c1 ∷ []) (refl, refl) (tt, tt) (λ e. cc))
        | inl n1 ↦ elim (Bool-cases (fine w1 c2)) [
          | inr e2 ↦ rw (n1, e2) (Gives-failed (c2 ∷ c1 ∷ []) (refl, refl) (tt, (tt, tt)) (λ e. cc))
          | inl n2 ↦
              rw (n1, n2) (Gives-some (c2 ∷ c1 ∷ []) (refl, refl) (tt, (tt, tt)) (λ ok. (q, refl)))
        ]
      ]

  sensor_hal_init-Gives :
      (s : Firmware) → BmcHalDone s → Gives (sensor_hal_init esp s) s (OnOk SensorHalDone)
  unfolding sensor_hal_init fine
  sensor_hal_init-Gives s q =
      let c1 = i2c_param_config 1 0 in
      let c2 = i2c_driver_install 1 0 0 in
      let w1 = c1 ∷ s.world in
      elim (Bool-cases (fine s.world c1)) [
        | inr e1 ↦ rw e1 (Gives-failed (c1 ∷ []) (refl, refl) (tt, tt) (λ e. cc))
        | inl n1 ↦ elim (Bool-cases (fine w1 c2)) [
          | inr e2 ↦ rw (n1, e2) (Gives-failed (c2 ∷ c1 ∷ []) (refl, refl) (tt, (tt, tt)) (λ e. cc))
          | inl n2 ↦
              rw (n1, n2) (Gives-some (c2 ∷ c1 ∷ []) (refl, refl) (tt, (tt, tt)) (λ ok. (q, refl)))
        ]
      ]

  nic_chip_hal_init-Gives :
      (s : Firmware) → SensorHalDone s → Gives (nic_chip_hal_init esp s) s (OnOk WithHal)
  unfolding nic_chip_hal_init fine
  nic_chip_hal_init-Gives s q =
      let c1 = spi_bus_initialize in
      let c2 = spi_bus_add_device in
      let c3 = gpio_config 4 true in
      let w1 = c1 ∷ s.world in
      elim (Bool-cases (fine s.world c1)) [
        | inr e1 ↦ rw e1 (Gives-failed (c1 ∷ []) (refl, refl) (tt, tt) (λ e. cc))
        | inl n1 ↦ elim (Bool-cases (fine w1 c2)) [
          | inr e2 ↦ rw (n1, e2) (Gives-failed (c2 ∷ c1 ∷ []) (refl, refl) (tt, (tt, tt)) (λ e. cc))
          | inl n2 ↦
              rw (n1, n2)
                (Gives-some (c3 ∷ c2 ∷ c1 ∷ []) (refl, refl) (tt, (tt, (tt, tt)))
                  (λ ok. (q.0.0, (q.0.1, q.1, refl))))
        ]
      ]

  pub init_hal-Gives : (s : Firmware) → QueuesReady s → Gives (init_hal esp s) s (OnOk WithHal)
  unfolding init_hal
  init_hal-Gives s q =
      Gives-check BmcHalDone (bmc_hal_init esp 0x20) _ s (bmc_hal_init-Gives s q) (λ t b.
        Gives-check SensorHalDone (sensor_hal_init esp) _ t (sensor_hal_init-Gives t b) (λ u h.
          Gives-check WithHal (nic_chip_hal_init esp) _ u (nic_chip_hal_init-Gives u h)
            (λ v w. Gives-some [] (refl, refl) tt (λ ok. w))))
