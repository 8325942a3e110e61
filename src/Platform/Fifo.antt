-- ===== src/Platform/Fifo.antt =====
-- What FreeRTOS documents of a queue: first in, first out.
use nic_ob_fw.Common.{
  ◌<◌, length, ℕ, ◌≡◌, List, [], ◌∷◌, ◌++◌, true, false, some, ◌==◌, ◌&&◌, if◌then◌else◌,
}
use nic_ob_fw.Platform.{Esp, World, Item, is_pass, queue_send, queue_send_from_isr, queue_receive}

abbrev pub rest_of : List Item → List Item
rest_of [] = []
rest_of (item ∷ items) = items

-- What waits in a queue after some calls, the oldest item first: a send that returns `pdPASS` puts its
-- item at the end, and a receive that does takes the first one.
abbrev pub pending : Esp → ℕ → World → List Item
pending esp queue [] = []
pending esp queue (queue_send handle item ticks ∷ w) =
    if (handle == queue) && is_pass (esp.answer w (queue_send handle item ticks))
    then pending esp queue w ++ (item ∷ [])
    else pending esp queue w
pending esp queue (queue_send_from_isr handle item ∷ w) =
    if (handle == queue) && is_pass (esp.answer w (queue_send_from_isr handle item))
    then pending esp queue w ++ (item ∷ [])
    else pending esp queue w
pending esp queue (queue_receive handle ticks ∷ w) =
    if (handle == queue) && is_pass (esp.answer w (queue_receive handle ticks))
    then rest_of (pending esp queue w)
    else pending esp queue w
pending esp queue (other ∷ w) = pending esp queue w

-- A receive from a queue where something waits delivers the oldest item at once; from an empty one, a
-- receive without waiting fails. No time is no ticks.
pub record IsFifo (esp : Esp) : Type 0 where
  pub no_wait : esp.ticks_of_ms 0 ≡ 0
  pub delivers :
      (w : World) (queue ticks : ℕ) (item : Item) (items : List Item)
      → pending esp queue w ≡ item ∷ items
      → (is_pass (esp.answer w (queue_receive queue ticks)) ≡ true)
        × ((esp.answer w (queue_receive queue ticks)).item ≡ some item)
  pub fails :
      (w : World) (queue : ℕ)
      → pending esp queue w ≡ []
      → is_pass (esp.answer w (queue_receive queue 0)) ≡ false

-- A queue of `depth` items takes one more from an interrupt handler while fewer wait.
pub record HasRoom (esp : Esp) (queue depth : ℕ) : Type 0 where
  pub takes :
      (w : World) (item : Item)
      → length (pending esp queue w) < depth
      → is_pass (esp.answer w (queue_send_from_isr queue item)) ≡ true
