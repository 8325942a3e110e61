-- ===== src/System/Waiting.antt =====
-- What waits in a queue was sent to it, and is of the type of the queue.
use nic_ob_fw.Common.{
  ℕ, ◌≡◌, refl, List, [], ◌∷◌, ◌++◌, map, Bool, true, false, inl, inr, arith, if◌then◌else◌, All,
  All-append, ◌==◌, ==_iff, ◌&&◌, Bool-cases,
}
use nic_ob_fw.Types.{BmcRxMsg}
use nic_ob_fw.Platform.{
  Esp, World, HwCall, Item, rx_item, queue_send, queue_send_from_isr, queue_receive,
}
use nic_ob_fw.Platform.Fifo.{pending, rest_of}
use nic_ob_fw.Firmware.{MainQueues}
use nic_ob_fw.BmcMgr.Drain.{IsPosted}
use nic_ob_fw.System.{Fits, Sends, WasSent}
use nic_ob_fw.System.Queues.{WasSent-Suits}

module _ (esp : Esp) (queue : ℕ) where
  later_too :
      (c : HwCall) (w : World) (items : List Item)
      → All (λ i. WasSent queue i w) items
      → All (λ i. WasSent queue i (c ∷ w)) items
  later_too c w [] h = tt
  later_too c w (item ∷ items) h = (inr h.0, later_too c w items h.1)

  put-WasSent :
      (c : HwCall) (handle : ℕ) (passed : Bool) (item : Item) (w : World) (items : List Item)
      → (handle ≡ queue → Sends queue item c)
      → All (λ i. WasSent queue i w) items
      → All
          (λ i. WasSent queue i (c ∷ w))
          (if (handle == queue) && passed then items ++ (item ∷ []) else items)
  put-WasSent c handle passed item w items sends h =
      elim (Bool-cases ((handle == queue) && passed)) [
        | inr other ↦ rw other (later_too c w items h)
        | inl both ↦
            let here : handle ≡ queue = (==_iff handle queue).0 (ground (arith, both)) in
            rw both (
              All-append (λ i. WasSent queue i (c ∷ w)) items (item ∷ []) (later_too c w items h)
                (inl (sends here), tt))
      ]

  taken-All :
      (P : Item → Type 0) (passed : Bool) (items : List Item)
      → All P items
      → All P (if passed then rest_of items else items)
  taken-All P true [] h = tt
  taken-All P true (item ∷ items) h = h.1
  taken-All P false items h = h

  pub pending-WasSent : (w : World) → All (λ i. WasSent queue i w) (pending esp queue w)
  pending-WasSent [] = tt
  pending-WasSent (queue_send handle item ticks ∷ w) =
      put-WasSent (queue_send handle item ticks) handle _ item w (pending esp queue w)
        (λ here. (here, refl)) (pending-WasSent w)
  pending-WasSent (queue_send_from_isr handle item ∷ w) =
      put-WasSent (queue_send_from_isr handle item) handle _ item w (pending esp queue w)
        (λ here. (here, refl)) (pending-WasSent w)
  pending-WasSent (queue_receive handle ticks ∷ w) =
      taken-All (λ i. WasSent queue i (queue_receive handle ticks ∷ w)) _ (pending esp queue w)
        (later_too (queue_receive handle ticks) w (pending esp queue w) (pending-WasSent w))
  pending-WasSent (other ∷ w) = later_too other w (pending esp queue w) (pending-WasSent w)

-- The BMC's messages have the size that the interrupt handler posts.
pub waiting-IsPosted :
    (q : MainQueues) (queue : ℕ) (w : World) (ms : List BmcRxMsg)
    → All (Fits q) w
    → All (λ i. WasSent queue i w) (map rx_item ms)
    → All IsPosted ms
waiting-IsPosted q queue w [] fits sent = tt
waiting-IsPosted q queue w (m ∷ ms) fits sent =
    ((WasSent-Suits q queue (rx_item m) w sent.0 fits).1, waiting-IsPosted q queue w ms fits sent.1)
