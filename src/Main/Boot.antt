-- ===== src/Main/Boot.antt =====
-- `app_main`, from queues to tasks.
use nic_ob_fw.Common.{
  ◌≡◌, ◌≢◌, refl, ap, ◌∙◌, List, [], ◌∷◌, ◌++◌, Bool, some, inl, inr, Bool-cases, All, All-append,
}
use nic_ob_fw.Types.{RtosErr, rtos_ok, rtos_err_nomem}
use nic_ob_fw.Platform.{
  Esp, HwCall, World, is_pass, task_create, bmc_mgr_task_name, sensor_mgr_task_name,
  flash_mgr_task_name,
}
use nic_ob_fw.Firmware.{Firmware, M, ◌>>=◌, bind-eq}
use nic_ob_fw.Rtos.{rtos_task_create}
use nic_ob_fw.Flash.{check}
use nic_ob_fw.Flash.Runs.{check_stops}
use nic_ob_fw.Types.Errors.{RtosErr-cases}
use nic_ob_fw.Main.{init_queues, init_hal, init_services, init_isr, create_tasks, app_main}
use nic_ob_fw.Main.Order.{IsSetup, Extends, Extends-trans, OnOk, Gives}
use nic_ob_fw.Main.Steps.{
  QueuesReady, WithHal, WithServices, IsReady, init_queues-Gives, init_hal-Gives,
}
use nic_ob_fw.Main.Services.{init_services-Gives, init_isr-Gives}

-- Either a step failed and no task was created, or everything was ready when `create_tasks` began, and
-- what it returned is the result.
pub data Boots (esp : Esp) (m : M RtosErr) (s : Firmware) : Type 0 where
  stopped :
      (e : RtosErr) (t : Firmware) (calls : List HwCall)
      → m s ≡ some (e, t)
      → e ≢ rtos_ok
      → Extends calls s t
      → All IsSetup calls
      → Boots esp m s
  launched :
      (e : RtosErr) (u t : Firmware) (calls : List HwCall)
      → m s ≡ some (e, t)
      → create_tasks esp u ≡ some (e, t)
      → IsReady u
      → Extends calls s u
      → All IsSetup calls
      → Boots esp m s

module _ (esp : Esp) where
  -- More calls in front.
  Boots-after :
      (m rest : M RtosErr) (s t : Firmware) (calls : List HwCall)
      → m s ≡ rest t
      → Extends calls s t
      → All IsSetup calls
      → Boots esp rest t
      → Boots esp m s
  Boots-after m rest s t calls same extends quiet (stopped e v more returns bad extends' quiet') =
      stopped e v (more ++ calls) (same ∙ returns) bad
        (Extends-trans calls more s t v extends extends')
        (All-append IsSetup more calls quiet' quiet)
  Boots-after m rest s t calls same extends quiet
        (launched e u v more returns created ready extends' quiet') =
      launched e u v (more ++ calls) (same ∙ returns) created ready
        (Extends-trans calls more s t u extends extends')
        (All-append IsSetup more calls quiet' quiet)

  Boots-check :
      (P : Firmware → Type 0) (m rest : M RtosErr) (s : Firmware)
      → Gives (m s) s (OnOk P)
      → ((t : Firmware) → P t → Boots esp rest t)
      → Boots esp (m >>= λ r. check r rest) s
  Boots-check P m rest s r k =
      let ran = bind-eq m (λ e. check e rest) s r.returns in
      elim (RtosErr-cases r.value) [
        | inl ok ↦
            Boots-after (m >>= λ e. check e rest) rest s r.after r.calls (ran ∙ rw ok refl)
              r.extends r.setup (k r.after (r.holds ok))
        | inr bad ↦
            stopped r.value r.after r.calls
              (ran ∙ ap (λ (k : M RtosErr). k r.after) (check_stops rest r.value bad)) bad r.extends
              r.setup
      ]

  -- `create_tasks` always returns.
  record Created (u : Firmware) : Type 0 where
    err : RtosErr
    after : Firmware
    returns : create_tasks esp u ≡ some (err, after)

  passes : World → HwCall → Bool
  passes w c = is_pass (esp.answer w c)

  create_tasks-Created : (u : Firmware) → Created u
  unfolding create_tasks rtos_task_create passes
  create_tasks-Created u =
      let c1 = task_create bmc_mgr_task_name 4096 5 in
      let c2 = task_create sensor_mgr_task_name 2048 3 in
      let c3 = task_create flash_mgr_task_name 4096 1 in
      let w1 = c1 ∷ u.world in
      let w2 = c2 ∷ w1 in
      let w3 = c3 ∷ w2 in
      elim (Bool-cases (passes u.world c1)) [
        | inr e1 ↦ record {
          err = rtos_err_nomem;
          after = record u { world = w1 };
          returns = rw e1 refl;
        }
        | inl n1 ↦ elim (Bool-cases (passes w1 c2)) [
          | inr e2 ↦ record {
            err = rtos_err_nomem;
            after = record u { world = w2 };
            returns = rw (n1, e2) refl;
          }
          | inl n2 ↦ elim (Bool-cases (passes w2 c3)) [
            | inr e3 ↦ record {
              err = rtos_err_nomem;
              after = record u { world = w3 };
              returns = rw (n1, n2, e3) refl;
            }
            | inl n3 ↦ record {
              err = rtos_ok;
              after = record u { world = w3 };
              returns = rw (n1, n2, n3) refl;
            }
          ]
        ]
      ]

-- Whatever the hardware answers, the start-up returns; and unless the queues, the drivers and the
-- managers are ready, with their handles set, their queues shared, the reassembly well-formed and
-- the event log empty, and the interrupt handlers have these queues, the BMC's callback is stored
-- and the GPIO driver was asked for the alert interrupt (its answer is not looked at), it ends in
-- an error and creates no task. Before the first task is created, no item is sent and no update is
-- started.
pub app_main-Boots : (esp : Esp) (s : Firmware) → Boots esp (app_main esp) s
unfolding app_main
app_main-Boots esp s =
    Boots-check esp QueuesReady (init_queues esp) _ s (init_queues-Gives esp s) (λ t q.
      Boots-check esp WithHal (init_hal esp) _ t (init_hal-Gives esp t q) (λ u h.
        Boots-check esp WithServices (init_services esp) _ u (init_services-Gives esp u h) (λ v w.
          Boots-check esp IsReady (init_isr esp) (create_tasks esp) v (init_isr-Gives esp v w)
            (λ x ready.
              let c = create_tasks-Created esp x in
              launched c.err x c.after [] c.returns c.returns ready (refl, refl) tt))))
