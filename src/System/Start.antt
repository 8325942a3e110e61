-- ===== src/System/Start.antt =====
-- From power-on to operation.
use nic_ob_fw.Common.{
  ℕ, ◌≡◌, refl, List, [], ◌∷◌, ◌++◌, append-nil, ◌∙◌, false, some, inl, inr, All, All-append, ap,
  arith,
}
use nic_ob_fw.Types.{RtosErr, rtos_ok}
use nic_ob_fw.Types.Errors.{RtosErr-cases}
use nic_ob_fw.Platform.{
  Esp, HwCall, World, IsSized, TaskName, task_create, queue_send, queue_send_from_isr,
  bmc_mgr_task_name, sensor_mgr_task_name, flash_mgr_task_name,
}
use nic_ob_fw.Firmware.{Firmware, M, MainQueues}
use nic_ob_fw.Flash.Runs.{check_stops}
use nic_ob_fw.Rtos.{rtos_task_create}
use nic_ob_fw.Main.{init_queues, init_hal, init_services, init_isr, create_tasks, app_main}
use nic_ob_fw.Main.Order.{IsSetup, Extends, Extends-trans, OnOk, Gives}
use nic_ob_fw.Main.Steps.{
  QueuesReady, WithHal, WithServices, IsReady, init_queues-Gives, init_hal-Gives,
}
use nic_ob_fw.Main.Services.{init_services-Gives, init_isr-Gives}
use nic_ob_fw.SensorMgr.Range.{cleared-IsTyped}
use nic_ob_fw.System.{Fits, IsDistinct, IsQueues, IsRunning}
use nic_ob_fw.System.Steps.{Reach, at_start, one_more, main_creates_task, Reach-IsRunning}

-- No call was made, and `s_update_active` has the initial value of a static variable. The other
-- variables are set by the start-up.
pub record IsReset (s : Firmware) : Type 0 where
  pub no_calls : s.world ≡ []
  pub inactive : s.flash_mgr.update_active ≡ false

IsSetup-Fits : (q : MainQueues) (c : HwCall) → IsSetup c → Fits q c
IsSetup-Fits q (queue_send handle item ticks) h = elim h [ ]
IsSetup-Fits q (queue_send_from_isr handle item) h = elim h [ ]
IsSetup-Fits q (task_create name stack_size priority) h = elim h [ ]
IsSetup-Fits q other h = h

setup-Fits : (q : MainQueues) (calls : List HwCall) → All IsSetup calls → All (Fits q) calls
setup-Fits q [] h = tt
setup-Fits q (c ∷ calls) h = (IsSetup-Fits q c h.0, setup-Fits q calls h.1)

-- What is ready before the tasks are created is running.
ready-IsRunning :
    (s u : Firmware) (calls : List HwCall)
    → IsReset s
    → IsReady u
    → Extends calls s u
    → All IsSetup calls
    → IsDistinct u.main
    → IsRunning u
ready-IsRunning s u calls reset ready extends setup distinct =
    let (queues, hal, bmc, sensor, flash, isr) = ready in
    let (events, bmc_rx, bmc_nic, bmc_flash, valid, log) = bmc in
    let (mutex, timer, alert, cache) = sensor in
    let (isr_rx, isr_nic, isr_alert, callback, asked) = isr in
    let made : u.world ≡ calls =
      extends.0 ∙ ap (λ (w : World). calls ++ w) reset.no_calls ∙ append-nil calls in
    record {
      sound = record {
        linked = (bmc_rx, bmc_nic, bmc_flash, flash.0, isr_rx, isr_nic, distinct);
        transmits = hal.0;
        reassembly = valid;
        cache = record { sized = rw cache refl; calibrated = rw cache (omega arith) };
        typed = rw cache (cleared-IsTyped 16);
        log = ([], log);
        suited = rw made (setup-Fits u.main calls setup);
      };
      settled = inl (flash.1, extends.1 ∙ reset.inactive);
    }

-- The four steps before the tasks are created, from `s` to `u`, all of them fine.
pub record SetUp (esp : Esp) (s u : Firmware) : Type 0 where
  pub with_queues : Firmware
  pub with_hal : Firmware
  pub with_services : Firmware
  pub queues : init_queues esp s ≡ some (rtos_ok, with_queues)
  pub hal : init_hal esp with_queues ≡ some (rtos_ok, with_hal)
  pub services : init_services esp with_hal ≡ some (rtos_ok, with_services)
  pub isr : init_isr esp with_services ≡ some (rtos_ok, u)

module _ (esp : Esp) where
  -- What a step that was fine leaves.
  record Left (P : Firmware → Type 0) (s t : Firmware) : Type 0 where
    holds : P t
    calls : List HwCall
    extends : Extends calls s t
    setup : All IsSetup calls

  step-Left :
      (P : Firmware → Type 0) (m : M RtosErr) (s t : Firmware)
      → m s ≡ some (rtos_ok, t)
      → Gives (m s) s (OnOk P)
      → Left P s t
  step-Left P m s t returns g =
      let fine : g.value ≡ rtos_ok = cc (returns, g.returns) in
      let same : g.after ≡ t = cc (returns, g.returns) in
      record {
        holds = rw (← same) (g.holds fine);
        calls = g.calls;
        extends = rw (← same) g.extends;
        setup = g.setup;
      }

  both-Left : {P Q : Firmware → Type 0} (s t u : Firmware) → Left P s t → Left Q t u → Left Q s u
  both-Left s t u before after = record {
    holds = after.holds;
    calls = after.calls ++ before.calls;
    extends = Extends-trans before.calls after.calls s t u before.extends after.extends;
    setup = All-append IsSetup after.calls before.calls after.setup before.setup;
  }

  SetUp-Left : (s u : Firmware) → SetUp esp s u → Left IsReady s u
  SetUp-Left s u b =
      let q =
        step-Left QueuesReady (init_queues esp) s b.with_queues b.queues
          (init_queues-Gives esp s) in
      let h =
        step-Left WithHal (init_hal esp) b.with_queues b.with_hal b.hal
          (init_hal-Gives esp b.with_queues q.holds) in
      let v =
        step-Left WithServices (init_services esp) b.with_hal b.with_services b.services
          (init_services-Gives esp b.with_hal h.holds) in
      let i =
        step-Left IsReady (init_isr esp) b.with_services u b.isr
          (init_isr-Gives esp b.with_services v.holds) in
      both-Left s b.with_services u
        (both-Left s b.with_hal b.with_services (both-Left s b.with_queues b.with_hal q h) v) i

  -- Creating the tasks is a sequence of steps.
  pub data Creates (u : Firmware) : Type 0 where
    creates :
        (e : RtosErr) (t : Firmware) → create_tasks esp u ≡ some (e, t) → Reach esp u t → Creates u

  task_created :
      (name : TaskName) (stack_size priority : ℕ) (s : Firmware)
      → (e : RtosErr) × (t : Firmware) × (rtos_task_create esp name stack_size priority s
          ≡ some (e, t))
  unfolding rtos_task_create
  task_created name stack_size priority s = (_, _, refl)

  create_tasks-Creates : (u : Firmware) → Creates u
  unfolding create_tasks
  create_tasks-Creates u =
      let (e1, t1, r1) = task_created bmc_mgr_task_name 4096 5 u in
      let reach1 =
        one_more u u t1 (at_start u) (main_creates_task bmc_mgr_task_name 4096 5 e1 r1) in
      let (e2, t2, r2) = task_created sensor_mgr_task_name 2048 3 t1 in
      let reach2 = one_more u t1 t2 reach1 (main_creates_task sensor_mgr_task_name 2048 3 e2 r2) in
      let (e3, t3, r3) = task_created flash_mgr_task_name 4096 1 t2 in
      let reach3 = one_more u t2 t3 reach2 (main_creates_task flash_mgr_task_name 4096 1 e3 r3) in
      elim (RtosErr-cases e1) [
        | inr bad1 ↦
            creates e1 t1 (rw r1 (ap (λ (k : M RtosErr). k t1) (check_stops _ e1 bad1))) reach1
        | inl ok1 ↦ elim (RtosErr-cases e2) [
          | inr bad2 ↦
              creates e2 t2
                (rw (r1, ok1, r2) (ap (λ (k : M RtosErr). k t2) (check_stops _ e2 bad2))) reach2
          | inl ok2 ↦ elim (RtosErr-cases e3) [
            | inr bad3 ↦
                creates e3 t3
                  (rw (r1, ok1, r2, ok2, r3) (ap (λ (k : M RtosErr). k t3) (check_stops _ e3 bad3)))
                  reach3
            | inl ok3 ↦ creates rtos_ok t3 (rw (r1, ok1, r2, ok2, r3, ok3) refl) reach3
          ]
        ]
      ]

  app_main-SetUp : (s u : Firmware) → SetUp esp s u → app_main esp s ≡ create_tasks esp u
  unfolding app_main
  app_main-SetUp s u b = rw (b.queues, b.hal, b.services, b.isr) refl

-- From the set-up on.
pub record Operates (esp : Esp) (s u v : Firmware) : Type 0 where
  pub goes_on : app_main esp s ≡ create_tasks esp u
  pub creates_them : Creates esp u
  pub running : IsRunning v

-- With arrays of their sizes and queues that deliver only what was sent to them: if, from the
-- initial values of the static variables and before any call, the four steps of the start-up that
-- set up the queues, the drivers, the managers and the interrupt handlers return `RTOS_OK`, and the
-- three queues that carry items have different handles, then the start-up goes on with the creation
-- of the tasks, which returns and is a sequence of steps; and the firmware is running in every
-- state that is reached after the set-up by the steps of the main task as it creates the tasks, of
-- the threads, from their first step on, of the interrupt handlers and of the timer, in any order.
pub app_main-Reach :
    (esp : Esp) (s u v : Firmware)
    → ((w : World) → IsSized (esp.uninit w))
    → IsQueues esp
    → IsReset s
    → SetUp esp s u
    → IsDistinct u.main
    → Reach esp u v
    → Operates esp s u v
app_main-Reach esp s u v sized queues reset set_up distinct reach =
    let b = SetUp-Left esp s u set_up in
    record {
      goes_on = app_main-SetUp esp s u set_up;
      creates_them = create_tasks-Creates esp u;
      running =
          Reach-IsRunning esp u v sized queues reach
            (ready-IsRunning s u b.calls reset b.holds b.extends b.setup distinct);
    }
