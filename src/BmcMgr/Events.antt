-- ===== src/BmcMgr/Events.antt =====
-- The loop that empties the queue of the NIC's events, as steps, and the log that it leaves.
pub mod Waiting
use nic_ob_fw.Common.{
  ℕ, zero, suc, ◌<◌, ◌≡◌, ◌≢◌, refl, ap, List, [], ◌∷◌, Option, some, arith, length,
}
use nic_ob_fw.Types.{RtosErr, rtos_ok, NicEventMsg}
use nic_ob_fw.Types.Errors.{on_failure}
use nic_ob_fw.Platform.{Esp, Item, nic_item, queue_receive}
use nic_ob_fw.Firmware.{Firmware, SelEntry}
use nic_ob_fw.Rtos.{rtos_queue_receive}
use nic_ob_fw.GenMgr.{nic_gen_mgr_handle_nic_event}
use nic_ob_fw.GenMgr.Sel.{Logs, nic_gen_mgr_log_sel_event-Logs}
use nic_ob_fw.BmcMgr.{handle_nic_event, drain_nic_events}

-- From the first state, the queue delivers the events one by one, each is handled, and then a receive
-- fails, in the last state.
pub data Notifies (esp : Esp) : Firmware → List NicEventMsg → Firmware → Type 0 where
  quiet :
      (s t : Firmware) (e : RtosErr) (left : Option Item)
      → rtos_queue_receive esp s.bmc_mgr.nic_event_queue 0 s ≡ some ((e, left), t)
      → e ≢ rtos_ok
      → Notifies esp s [] t
  notifies_one :
      (s u v t : Firmware) (ev : NicEventMsg) (evs : List NicEventMsg)
      → rtos_queue_receive esp s.bmc_mgr.nic_event_queue 0 s
        ≡ some ((rtos_ok, some (nic_item ev)), u)
      → handle_nic_event esp ev u ≡ some (tt, v)
      → Notifies esp v evs t
      → Notifies esp s (ev ∷ evs) t

-- The history before and after the events were recorded, each with its time.
pub data Records : List NicEventMsg → List SelEntry → List SelEntry → Type 0 where
  no_event : (h : List SelEntry) → Records [] h h
  one_event :
      (ev : NicEventMsg) (evs : List NicEventMsg) (now : ℕ) (h h' : List SelEntry)
      → Records evs
          (record { event_type = ev.event_type; event_data = ev.event_data; timestamp_ms = now }
            ∷ h)
          h'
      → Records (ev ∷ evs) h h'

module _ (esp : Esp) where
  stops_quiet :
      (fuel : ℕ) (s t : Firmware) (e : RtosErr) (left : Option Item)
      → rtos_queue_receive esp s.bmc_mgr.nic_event_queue 0 s ≡ some ((e, left), t)
      → e ≢ rtos_ok
      → drain_nic_events esp (suc fuel) s ≡ some (tt, t)
  unfolding drain_nic_events
  stops_quiet fuel s t e left r =
      let Stops : RtosErr → Type 0 = λ (f : RtosErr).
        rtos_queue_receive esp s.bmc_mgr.nic_event_queue 0 s ≡ some ((f, left), t)
        → drain_nic_events esp (suc fuel) s ≡ some (tt, t) in
      λ bad.
        on_failure Stops (λ q. rw q refl) (λ q. rw q refl) (λ q. rw q refl) (λ q. rw q refl)
          (λ q. rw q refl) e bad r

  drain_nic_events-Notifies :
      (evs : List NicEventMsg) (fuel : ℕ) (s t : Firmware)
      → Notifies esp s evs t
      → length evs < fuel
      → drain_nic_events esp fuel s ≡ some (tt, t)
  unfolding drain_nic_events
  drain_nic_events-Notifies evs zero s t f h = absurd (omega arith)
  drain_nic_events-Notifies [] (suc fuel) s t (quiet _ _ e left r bad) h =
      stops_quiet fuel s t e left r bad
  drain_nic_events-Notifies (ev ∷ evs) (suc fuel) s t (notifies_one _ u v _ _ _ r handled rest) h =
      rw (drain_nic_events, r, handled) (drain_nic_events-Notifies evs fuel v t rest (omega arith))

  same_log :
      (queue : ℕ) (s u : Firmware) (r : RtosErr × Option Item)
      → rtos_queue_receive esp queue 0 s ≡ some (r, u)
      → s.gen_mgr ≡ u.gen_mgr
  unfolding rtos_queue_receive
  same_log queue s u r e =
      let same : record s { world = queue_receive queue (esp.ticks_of_ms 0) ∷ s.world } ≡ u =
        cc e in
      ap (λ (t : Firmware). t.gen_mgr) same

  -- One event, with the time at which it was logged.
  handled-Logs :
      (ev : NicEventMsg) (h : List SelEntry) (s t : Firmware)
      → Logs s.gen_mgr h
      → handle_nic_event esp ev s ≡ some (tt, t)
      → (now : ℕ) × Logs t.gen_mgr (
          record { event_type = ev.event_type; event_data = ev.event_data; timestamp_ms = now } ∷ h)
  unfolding handle_nic_event nic_gen_mgr_handle_nic_event
  handled-Logs ev h s t logs handled =
      let l = nic_gen_mgr_log_sel_event-Logs esp ev.event_type ev.event_data h s logs in
      let returned : handle_nic_event esp ev s ≡ some (tt, l.after) = rw (l.returns) refl in
      let same : l.after ≡ t = cc (returned, handled) in (l.now, rw (← same) l.logs)

  Notifies-Logs :
      (evs : List NicEventMsg) (h : List SelEntry) (s t : Firmware)
      → Notifies esp s evs t
      → Logs s.gen_mgr h
      → (h' : List SelEntry) × Records evs h h' × Logs t.gen_mgr h'
  Notifies-Logs [] h s t (quiet _ _ e left r bad) logs =
      (h, no_event h, rw (← same_log s.bmc_mgr.nic_event_queue s t (e, left) r) logs)
  Notifies-Logs (ev ∷ evs) h s t (notifies_one _ u v _ _ _ r handled rest) logs =
      let got = same_log s.bmc_mgr.nic_event_queue s u (rtos_ok, some (nic_item ev)) r in
      let (now, logged) = handled-Logs ev h u v (rw (← got) logs) handled in
      let (h', records, after) = Notifies-Logs evs _ v t rest logged in
      (h', one_event ev evs now h h' records, after)

-- If the queue delivers some events, each handled, and then runs dry, the loop with a unit of fuel
-- for each event and one more returns in the state in which the queue ran dry; and if the log held
-- the newest events of a history before, it holds those of the history with all these events in
-- front, the last one first, each with its type, its data and a time.
pub drain_nic_events-Logs :
    (esp : Esp) (evs : List NicEventMsg) (h : List SelEntry) (fuel : ℕ) (s t : Firmware)
    → Notifies esp s evs t
    → length evs < fuel
    → Logs s.gen_mgr h
    → (h' : List SelEntry) × (drain_nic_events esp fuel s ≡ some (tt, t))
      × Records evs h h'
      × Logs t.gen_mgr h'
drain_nic_events-Logs esp evs h fuel s t notifies enough logs =
    let (h', records, after) = Notifies-Logs esp evs h s t notifies logs in
    (h', drain_nic_events-Notifies esp evs fuel s t notifies enough, records, after)
