-- ===== src/System/Queues.antt =====
-- What the queues deliver: every item comes out of the queue of its type.
use nic_ob_fw.Common.{ℕ, ◌≡◌, inl, inr, refl, sym, ◌∙◌, subst, [], ◌∷◌, some, none, All, Bool-cases}
use nic_ob_fw.Types.{
  rtos_ok, rtos_err_timeout, BmcRxMsg, NicEventMsg, FlashCmd, update_start, flash_cmd_code,
}
use nic_ob_fw.Platform.{
  Esp, HwCall, World, Item, rx_item, nic_item, flash_item, queue_send, queue_send_from_isr,
  queue_receive, is_pass,
}
use nic_ob_fw.Firmware.{Firmware, MainQueues}
use nic_ob_fw.Rtos.{rtos_queue_receive, ms_to_ticks}
use nic_ob_fw.BmcMgr.Drain.{IsPosted}
use nic_ob_fw.System.{Suits, Fits, Sends, WasSent, IsQueues, IsDistinct, IsSound}

-- What was sent to a queue suits it, if every call so far does.
Sends-Suits :
    (q : MainQueues) (queue : ℕ) (item : Item) (c : HwCall)
    → Sends queue item c
    → Fits q c
    → Suits q queue item
Sends-Suits q queue item (queue_send handle it ticks) (to, is) fits =
    subst (λ h. Suits q h item) to (subst (λ i. Suits q handle i) is fits)
Sends-Suits q queue item (queue_send_from_isr handle it) (to, is) fits =
    subst (λ h. Suits q h item) to (subst (λ i. Suits q handle i) is fits)
Sends-Suits q queue item other sends fits = elim sends [ ]

pub WasSent-Suits :
    (q : MainQueues) (queue : ℕ) (item : Item) (w : World)
    → WasSent queue item w
    → All (Fits q) w
    → Suits q queue item
WasSent-Suits q queue item [] sent fits = elim sent [ ]
WasSent-Suits q queue item (c ∷ w) (inl now) fits = Sends-Suits q queue item c now fits.0
WasSent-Suits q queue item (c ∷ w) (inr before) fits = WasSent-Suits q queue item w before fits.1

-- A receive: it times out, or it delivers an item of some kind.
pub data Receives (esp : Esp) (queue timeout_ms : ℕ) (Is : Item → Type 0) (s : Firmware)
    : Type 0 where
  nothing :
      rtos_queue_receive esp queue timeout_ms s
        ≡ some (
          (rtos_err_timeout, none),
          record s { world = queue_receive queue (ms_to_ticks esp timeout_ms) ∷ s.world },
        )
      → Receives esp queue timeout_ms Is s
  got :
      (item : Item)
      → Is item
      → rtos_queue_receive esp queue timeout_ms s
        ≡ some (
          (rtos_ok, some item),
          record s { world = queue_receive queue (ms_to_ticks esp timeout_ms) ∷ s.world },
        )
      → Receives esp queue timeout_ms Is s

module _ (esp : Esp) (queue timeout_ms : ℕ) (s : Firmware) where
  pub receive-Suits :
      IsQueues esp → IsSound s → Receives esp queue timeout_ms (Suits s.main queue) s
  unfolding rtos_queue_receive
  receive-Suits queues h =
      let call = queue_receive queue (ms_to_ticks esp timeout_ms) in
      elim (Bool-cases (is_pass (esp.answer s.world call))) [
        | inr failed ↦ nothing (rw failed refl)
        | inl passed ↦
            let (item, is, sent) =
              queues.delivers s.world queue (ms_to_ticks esp timeout_ms) passed in
            got item (WasSent-Suits s.main queue item s.world sent h.suited) (rw (passed, is) refl)
      ]

  pub Receives-map :
      {P Q : Item → Type 0}
      → ((item : Item) → P item → Q item)
      → Receives esp queue timeout_ms P s
      → Receives esp queue timeout_ms Q s
  Receives-map f (nothing returns) = nothing returns
  Receives-map f (got item is returns) = got item (f item is) returns

-- The three types of items.
abbrev pub IsRxItem : Item → Type 0
IsRxItem item = (m : BmcRxMsg) × (item ≡ rx_item m) × IsPosted m

abbrev pub IsNicItem : Item → Type 0
IsNicItem item = (event : NicEventMsg) × (item ≡ nic_item event)

abbrev pub IsUpdateItem : Item → Type 0
IsUpdateItem item =
    (cmd : FlashCmd) × (item ≡ flash_item cmd) × (cmd.cmd_type ≡ flash_cmd_code update_start)

rx-Suits :
    (q : MainQueues) (queue : ℕ) (item : Item)
    → queue ≡ q.bmc_rx_queue
    → IsDistinct q
    → Suits q queue item
    → IsRxItem item
rx-Suits q queue (rx_item m) is distinct h = (m, refl, h.1)
rx-Suits q queue (nic_item event) is distinct h = absurd (distinct.0 (sym is ∙ h))
rx-Suits q queue (flash_item cmd) is distinct h = absurd (distinct.1 (sym is ∙ h.0))

nic-Suits :
    (q : MainQueues) (queue : ℕ) (item : Item)
    → queue ≡ q.nic_event_queue
    → IsDistinct q
    → Suits q queue item
    → IsNicItem item
nic-Suits q queue (rx_item m) is distinct h = absurd (distinct.0 (sym h.0 ∙ is))
nic-Suits q queue (nic_item event) is distinct h = (event, refl)
nic-Suits q queue (flash_item cmd) is distinct h = absurd (distinct.2 (sym is ∙ h.0))

update-Suits :
    (q : MainQueues) (queue : ℕ) (item : Item)
    → queue ≡ q.flash_cmd_queue
    → IsDistinct q
    → Suits q queue item
    → IsUpdateItem item
update-Suits q queue (rx_item m) is distinct h = absurd (distinct.1 (sym h.0 ∙ is))
update-Suits q queue (nic_item event) is distinct h = absurd (distinct.2 (sym h ∙ is))
update-Suits q queue (flash_item cmd) is distinct h = (cmd, refl, h.1)

-- On queues that deliver only what was sent to them, in every sound state and with every timeout, a
-- receive from the BMC manager's two queues and from the flash manager's queue times out, or
-- delivers an item of the type that the caller copies it into: a message of at most 32 bytes, an
-- event, and an update command of the type `FLASH_CMD_UPDATE_START`.
pub rtos_queue_receive-Receives :
    (esp : Esp) (timeout_ms : ℕ) (s : Firmware)
    → IsQueues esp
    → IsSound s
    → Receives esp s.bmc_mgr.bmc_rx_queue timeout_ms IsRxItem s
      × Receives esp s.bmc_mgr.nic_event_queue timeout_ms IsNicItem s
      × Receives esp s.flash_mgr.cmd_queue timeout_ms IsUpdateItem s
rtos_queue_receive-Receives esp timeout_ms s queues h =
    let (rx, nic, flash, cmd, isr_rx, isr_nic, distinct) = h.linked in
    (
      Receives-map esp _ timeout_ms s (λ item. rx-Suits s.main _ item rx distinct)
          (receive-Suits esp _ timeout_ms s queues h),
      Receives-map esp _ timeout_ms s (λ item. nic-Suits s.main _ item nic distinct)
          (receive-Suits esp _ timeout_ms s queues h),
      Receives-map esp _ timeout_ms s (λ item. update-Suits s.main _ item cmd distinct)
          (receive-Suits esp _ timeout_ms s queues h),
    )
