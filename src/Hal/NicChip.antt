-- ===== src/Hal/NicChip.antt =====
-- components/nic_chip_hal/src/nic_chip_hal.c: the SPI master and the GPIO lines of the NIC chip.
use nic_ob_fw.Common.{ℕ, ◌*◌, List, [], Bool, true, false, not, Option, ◌==◌, if◌then◌else◌}
use nic_ob_fw.Types.{RtosErr, rtos_ok, rtos_err_fail}
use nic_ob_fw.Platform.{
  Esp, is_esp_ok, spi_bus_initialize, spi_bus_add_device, spi_device_transmit, gpio_config,
  gpio_set_level, gpio_get_level, gpio_install_isr_service, gpio_isr_handler_add,
}
use nic_ob_fw.Firmware.{M, pure, ◌>>=◌, ◌>>◌, get, modify, perform}

abbrev pub nic_reset_pin : ℕ
nic_reset_pin = 4

module _ (esp : Esp) where
  unfoldable pub nic_chip_hal_init : M RtosErr
  nic_chip_hal_init = do
    bus ← perform esp spi_bus_initialize
    if is_esp_ok bus
        then (do
          added ← perform esp spi_bus_add_device
          modify λ s. record s { nic_hal = record s.nic_hal { spi_dev = added.value } }
          if is_esp_ok added
              then (do
                perform esp (gpio_config nic_reset_pin true)
                modify λ s. record s { nic_hal = record s.nic_hal { initialized = true } }
                pure rtos_ok)
              else pure rtos_err_fail)
        else pure rtos_err_fail

  -- `tx_buf` is `none` for a null pointer, `reads` says that `rx_buf` is not null, and the bytes
  -- that come back are what is left in `rx_buf`.
  unfoldable pub nic_chip_hal_spi_transfer : Option (List ℕ) → Bool → ℕ → M (RtosErr × List ℕ)
  nic_chip_hal_spi_transfer tx_buf reads length = do
    s ← get
    if s.nic_hal.initialized
        then (do
          ret ← perform esp (spi_device_transmit s.nic_hal.spi_dev tx_buf reads (length * 8))
          pure (if is_esp_ok ret then rtos_ok else rtos_err_fail, ret.bytes))
        else pure (rtos_err_fail, [])

  unfoldable pub nic_chip_hal_gpio_set : ℕ → Bool → M RtosErr
  nic_chip_hal_gpio_set pin_id level = do
    ret ← perform esp (gpio_set_level pin_id (if level then 1 else 0))
    pure (if is_esp_ok ret then rtos_ok else rtos_err_fail)

  unfoldable pub nic_chip_hal_gpio_get : ℕ → M Bool
  nic_chip_hal_gpio_get pin_id = do
    ret ← perform esp (gpio_get_level pin_id)
    pure (not (ret.value == 0))

  unfoldable pub nic_chip_hal_register_alert_isr : ℕ → M RtosErr
  nic_chip_hal_register_alert_isr pin_id = do
    perform esp (gpio_config pin_id false)
    perform esp gpio_install_isr_service
    ret ← perform esp (gpio_isr_handler_add pin_id)
    pure (if is_esp_ok ret then rtos_ok else rtos_err_fail)
