-- ===== src/BmcMgr/Round.antt =====
-- A whole round of `bmc_mgr_task`: the wait, the BMC's messages, the NIC's events, and the liveness
-- check, in this order.
use nic_ob_fw.Common.{ℕ, ◌<◌, ◌≡◌, refl, List, ◌∷◌, Bool, true, false, some, length}
use nic_ob_fw.Types.{NicEventMsg, liveness, msg_type_code}
use nic_ob_fw.Platform.{Esp, event_group_wait, tick_count}
use nic_ob_fw.Platform.Fifo.{pending}
use nic_ob_fw.Firmware.{Firmware, SelEntry}
use nic_ob_fw.Rtos.{rtos_event_group_wait, ms_to_ticks, rtos_get_tick_ms}
use nic_ob_fw.GenMgr.Sel.{Logs, nic_gen_mgr_log_sel_event-Logs}
use nic_ob_fw.BmcMgr.{drain_bmc_rx, liveness_check, liveness_round, bmc_mgr_round}
use nic_ob_fw.BmcMgr.Events.{Notifies, Records, drain_nic_events-Logs}

-- The state after the wait for the event group.
abbrev pub waited : Esp → Firmware → Firmware
waited esp s = record s {
  world = event_group_wait s.bmc_mgr.events 3 true false (ms_to_ticks esp 1000) ∷ s.world;
}

-- The history with the silence of the BMC in front, if it was silent.
abbrev pub with_silence : Bool → ℕ → List SelEntry → List SelEntry
with_silence true now history = history
with_silence false now history =
    record { event_type = msg_type_code liveness; event_data = 0; timestamp_ms = now } ∷ history

-- What the check at the end comes to.
pub record Checks (esp : Esp) (history : List SelEntry) (s : Firmware) : Type 0 where
  pub alive : Bool
  pub checked : Firmware
  pub asks : liveness_check esp s ≡ some (alive, checked)
  pub now : ℕ
  pub after : Firmware
  pub returns : liveness_round esp s ≡ some (tt, after)
  pub logs : Logs after.gen_mgr (with_silence alive now history)
  pub kept : (queue : ℕ) → pending esp queue after.world ≡ pending esp queue s.world

module _ (esp : Esp) (history : List SelEntry) (s : Firmware) (logs : Logs s.gen_mgr history) where
  abbrev checked_at : Firmware
  checked_at = record s { world = tick_count ∷ s.world }

  by_liveness : (b : Bool) → liveness_check esp s ≡ some (b, checked_at) → Checks esp history s
  unfolding liveness_round
  by_liveness true asks = record {
    alive = true;
    checked = checked_at;
    asks = asks;
    now = 0;
    after = checked_at;
    returns = rw asks refl;
    logs = logs;
    kept = λ queue. refl;
  }
  by_liveness false asks =
      let l =
        nic_gen_mgr_log_sel_event-Logs esp (msg_type_code liveness) 0 history checked_at logs in
      record {
        alive = false;
        checked = checked_at;
        asks = asks;
        now = l.now;
        after = l.after;
        returns = rw (asks, l.returns) refl;
        logs = l.logs;
        kept = λ queue. rw (l.calls) refl;
      }

  liveness_round-Checks : Checks esp history s
  unfolding liveness_check rtos_get_tick_ms
  liveness_round-Checks = by_liveness _ refl

-- What a round leaves: the events in the log, then the silence of the BMC, if the check found it silent.
pub record Rounds (esp : Esp) (fuel : ℕ) (evs : List NicEventMsg) (h : List SelEntry)
    (s last : Firmware) : Type 0 where
  pub history : List SelEntry
  pub records : Records evs h history
  pub checks : Checks esp history last
  pub returns : bmc_mgr_round esp fuel s ≡ some (tt, checks.after)

-- If the first loop, after the wait, returns within the fuel, and then the second queue delivers
-- some events and runs dry, a round with more fuel than there are events returns; if the log held the
-- newest events of a history when the first loop was done, it holds those of the history with these
-- events in front and, exactly if the liveness check after them says that the BMC is silent, that
-- event on top.
pub bmc_mgr_round-Rounds :
    (esp : Esp) (evs : List NicEventMsg) (h : List SelEntry) (fuel : ℕ) (s t last : Firmware)
    → drain_bmc_rx esp fuel (waited esp s) ≡ some (tt, t)
    → Notifies esp t evs last
    → length evs < fuel
    → Logs t.gen_mgr h
    → Rounds esp fuel evs h s last
unfolding bmc_mgr_round rtos_event_group_wait
bmc_mgr_round-Rounds esp evs h fuel s t last drained notifies enough logs =
    let (history, quiet, records, after) =
      drain_nic_events-Logs esp evs h fuel t last notifies enough logs in
    let checks = liveness_round-Checks esp history last after in
    record {
      history = history;
      records = records;
      checks = checks;
      returns = rw (drained, quiet, checks.returns) refl;
    }
