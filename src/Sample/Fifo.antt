-- ===== src/Sample/Fifo.antt =====
-- A platform whose queues work: first in, first out, without a bound. All calls succeed, and every
-- handle is a new number.
use nic_ob_fw.Common.{
  sym, ◌∙◌, Bool-cases, ℕ, suc, ◌≡◌, inl, inr, refl, List, [], ◌∷◌, ◌++◌, true, false, Option, some,
  none, ◌==◌, ==_iff, if◌then◌else◌, length, All,
}
use nic_ob_fw.Common.Int.{ℤ, pos}
use nic_ob_fw.Platform.{
  Esp, HwCall, World, Item, queue_send, queue_send_from_isr, queue_receive, is_pass,
  i2c_param_config, i2c_driver_install, i2c_master_cmd_begin, spi_bus_initialize,
  spi_bus_add_device, spi_device_transmit, gpio_config, gpio_set_level, gpio_install_isr_service,
  gpio_isr_handler_add,
}
use nic_ob_fw.Platform.Fifo.{pending, rest_of, IsFifo, HasRoom}
use nic_ob_fw.System.Waiting.{pending-WasSent}
use nic_ob_fw.Sample.{esp}
use nic_ob_fw.System.{WasSent, IsQueues}

abbrev head_of : List Item → Option Item
head_of [] = none
head_of (item ∷ items) = some item

-- What is in a queue after some calls, the oldest item first.
abbrev pub content : ℕ → World → List Item
content queue [] = []
content queue (queue_send handle item ticks ∷ w) =
    if handle == queue then content queue w ++ (item ∷ []) else content queue w
content queue (queue_send_from_isr handle item ∷ w) =
    if handle == queue then content queue w ++ (item ∷ []) else content queue w
content queue (queue_receive handle ticks ∷ w) =
    if handle == queue then rest_of (content queue w) else content queue w
content queue (other ∷ w) = content queue w

abbrev passes : List Item → ℤ
passes [] = pos 0
passes (item ∷ items) = pos 1

-- `ESP_OK` is 0, and `pdPASS` is 1.
abbrev status_of : HwCall → World → ℤ
status_of (i2c_param_config port addr) w = pos 0
status_of (i2c_driver_install port rx tx) w = pos 0
status_of (i2c_master_cmd_begin port ops ticks) w = pos 0
status_of spi_bus_initialize w = pos 0
status_of spi_bus_add_device w = pos 0
status_of (spi_device_transmit device tx reads bits) w = pos 0
status_of (gpio_config pin output) w = pos 0
status_of (gpio_set_level pin level) w = pos 0
status_of gpio_install_isr_service w = pos 0
status_of (gpio_isr_handler_add pin) w = pos 0
status_of (queue_receive queue ticks) w = passes (content queue w)
status_of other w = pos 1

abbrev item_of : HwCall → World → Option Item
item_of (queue_receive queue ticks) w = head_of (content queue w)
item_of other w = none

abbrev pub fifo : Esp
fifo = record esp {
  answer = λ w c. record {
    status = status_of c w;
    value = suc (length w);
    bytes = 25 ∷ 0 ∷ 0 ∷ 0 ∷ [];
    item = item_of c w;
    woken = false;
  };
}

-- The content is what waits by the documentation of FreeRTOS.
received_same :
    (handle queue ticks : ℕ) (w : World) (items : List Item)
    → handle ≡ queue
    → content queue w ≡ items
    → (if is_pass (fifo.answer w (queue_receive handle ticks)) then rest_of items else items)
      ≡ rest_of items
received_same handle queue ticks w [] same is = rw (same, is) refl
received_same handle queue ticks w (item ∷ items) same is = rw (same, is) refl

pending_content : (queue : ℕ) (w : World) → pending fifo queue w ≡ content queue w
pending_content queue [] = refl
pending_content queue (queue_send handle item ticks ∷ w) = elim (Bool-cases (handle == queue)) [
  | inl same ↦ rw (same, pending_content queue w) refl
  | inr other ↦ rw other (pending_content queue w)
]
pending_content queue (queue_send_from_isr handle item ∷ w) = elim (Bool-cases (handle == queue)) [
  | inl same ↦ rw (same, pending_content queue w) refl
  | inr other ↦ rw other (pending_content queue w)
]
pending_content queue (queue_receive handle ticks ∷ w) = elim (Bool-cases (handle == queue)) [
  | inl same ↦
      rw (same, pending_content queue w)
        (received_same handle queue ticks w (content queue w) ((==_iff handle queue).0 same) refl)
  | inr other ↦ rw other (pending_content queue w)
]
pending_content queue (other ∷ w) = pending_content queue w

pub fifo-IsFifo : IsFifo fifo
fifo-IsFifo = record {
  no_wait = refl;
  delivers = λ w queue ticks item items waits.
      let is = sym (pending_content queue w) ∙ waits in (rw is refl, rw is refl);
  fails = λ w queue waits. let is = sym (pending_content queue w) ∙ waits in rw is refl;
}

pub fifo-HasRoom : (queue depth : ℕ) → HasRoom fifo queue depth
fifo-HasRoom queue depth = record { takes = λ w item few. refl }

head-WasSent :
    (queue ticks : ℕ) (w : World) (items : List Item)
    → content queue w ≡ items
    → All (λ i. WasSent queue i w) items
    → is_pass (fifo.answer w (queue_receive queue ticks)) ≡ true
    → (item : Item) × ((fifo.answer w (queue_receive queue ticks)).item ≡ some item)
      × WasSent queue item w
head-WasSent queue ticks w [] is sent passed = absurd (cc (passed, is))
head-WasSent queue ticks w (item ∷ items) is sent passed = (item, rw is refl, sent.0)

pub fifo-IsQueues : IsQueues fifo
fifo-IsQueues = record {
  delivers = λ w queue ticks passed.
      head-WasSent queue ticks w (pending fifo queue w) (sym (pending_content queue w))
        (pending-WasSent fifo queue w) passed;
}
