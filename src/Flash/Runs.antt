-- ===== src/Flash/Runs.antt =====
-- A calculus for the flash code: a computation that always returns, touches nothing but the
-- platform, and carries out a plan of flash operations up to the point where it fails.
use nic_ob_fw.Common.{
  ◌≡◌, refl, sym, ap, ◌∙◌, List, [], ◌∷◌, ◌++◌, append-nil, append_assoc, Bool, Option, some, inl,
  inr, ◌≢◌, if◌then◌else◌, Bool-cases, ℕ, ◌*◌,
}
use nic_ob_fw.Types.{RtosErr, rtos_ok, rtos_err_fail}
use nic_ob_fw.Types.Errors.{on_failure, RtosErr-cases}
use nic_ob_fw.Platform.{Answer, Esp, is_esp_ok, spi_device_transmit}
use nic_ob_fw.Firmware.{Firmware, M, pure, ◌>>=◌, bind-eq}
use nic_ob_fw.Hal.NicChip.{nic_chip_hal_spi_transfer}
use nic_ob_fw.Flash.{check}
use nic_ob_fw.Flash.Ops.{FlashOp, tx_ops, flash_ops}

-- `s'` is `s` after more platform calls, which carried out `done`.
pub record Extends (esp : Esp) (s s' : Firmware) (done : List FlashOp) : Type 0 where
  pub same : s' ≡ record s { world = s'.world }
  pub ops : flash_ops esp s'.world ≡ flash_ops esp s.world ++ done

pub record Runs (esp : Esp) (m : M RtosErr) (s : Firmware) (plan : List FlashOp) : Type 0 where
  pub err : RtosErr
  pub after : Firmware
  pub done : List FlashOp
  pub rest : List FlashOp
  pub returns : m s ≡ some (err, after)
  pub extends : Extends esp s after done
  pub prefix : done ++ rest ≡ plan
  pub complete : err ≡ rtos_ok → rest ≡ []

pub check_stops : (k : M RtosErr) (e : RtosErr) → e ≢ rtos_ok → check e k ≡ pure e
check_stops k = on_failure (λ e. check e k ≡ pure e) refl refl refl refl refl

module _ {esp : Esp} where
  pub Extends-refl : (s : Firmware) → Extends esp s s []
  Extends-refl s = record { same = refl; ops = sym (append-nil _) }

  pub Extends-trans :
      {s t u : Firmware} {a b : List FlashOp}
      → Extends esp s t a
      → Extends esp t u b
      → Extends esp s u (a ++ b)
  Extends-trans {s} {t} {u} {a} {b} p q = record {
    same = q.same ∙ ap (λ (x : Firmware). record x { world = u.world }) p.same;
    ops =
        q.ops ∙ ap (λ (l : List FlashOp). l ++ b) p.ops ∙ append_assoc (flash_ops esp s.world) a b;
  }

  pub Runs-pure : (s : Firmware) → Runs esp (pure rtos_ok) s []
  Runs-pure s = record {
    err = rtos_ok;
    after = s;
    done = [];
    rest = [];
    returns = refl;
    extends = Extends-refl s;
    prefix = refl;
    complete = λ _. refl;
  }

  -- An error before anything was done.
  pub Runs-fail :
      (e : RtosErr) (s : Firmware) (plan : List FlashOp)
      → (e ≡ rtos_ok → plan ≡ [])
      → Runs esp (pure e) s plan
  Runs-fail e s plan bad = record {
    err = e;
    after = s;
    done = [];
    rest = plan;
    returns = refl;
    extends = Extends-refl s;
    prefix = refl;
    complete = bad;
  }

  -- Of two steps in a row the second runs if the first returned `RTOS_OK`, and its error is returned
  -- otherwise.
  pub Runs-bind :
      (m : M RtosErr) (k : RtosErr → M RtosErr) (s : Firmware) (a b : List FlashOp)
      → Runs esp m s a
      → ((e : RtosErr) → e ≢ rtos_ok → k e ≡ pure e)
      → ((t : Firmware) → Runs esp (k rtos_ok) t b)
      → Runs esp (m >>= k) s (a ++ b)
  Runs-bind m k s a b first stops second = elim (RtosErr-cases first.err) [
    | inl is ↦ succeeded is
    | inr bad ↦ failed first.err refl bad
  ]
    where
      failed : (e : RtosErr) → first.err ≡ e → e ≢ rtos_ok → Runs esp (m >>= k) s (a ++ b)
      failed e is bad = record {
        err = e;
        after = first.after;
        done = first.done;
        rest = first.rest ++ b;
        returns = bind-eq m k s first.returns ∙ rw (is, stops e bad);
        extends = first.extends;
        prefix =
            sym (append_assoc first.done first.rest b)
            ∙ ap (λ (l : List FlashOp). l ++ b) first.prefix;
        complete = λ ok. absurd (bad ok);
      }

      succeeded : first.err ≡ rtos_ok → Runs esp (m >>= k) s (a ++ b)
      succeeded is =
          let next = second first.after in
          let whole : first.done ≡ a =
            sym (append-nil first.done)
            ∙ ap (λ (l : List FlashOp). first.done ++ l) (sym (first.complete is))
            ∙ first.prefix in
          record {
            err = next.err;
            after = next.after;
            done = first.done ++ next.done;
            rest = next.rest;
            returns = bind-eq m k s first.returns ∙ rw is next.returns;
            extends = Extends-trans first.extends next.extends;
            prefix =
                append_assoc first.done next.done next.rest
                ∙ ap (λ (l : List FlashOp). first.done ++ l) next.prefix
                ∙ ap (λ (l : List FlashOp). l ++ b) whole;
            complete = next.complete;
          }

  pub Runs-check :
      (m k : M RtosErr) (s : Firmware) (a b : List FlashOp)
      → Runs esp m s a
      → ((t : Firmware) → Runs esp k t b)
      → Runs esp (m >>= λ e. check e k) s (a ++ b)
  Runs-check m k s a b first second =
      Runs-bind m (λ e. check e k) s a b first (check_stops k) second

  -- Steps that carry out nothing may stand in front.
  pub Runs-after :
      (m k : M RtosErr) (s t : Firmware) (plan : List FlashOp)
      → Extends esp s t []
      → m s ≡ k t
      → Runs esp k t plan
      → Runs esp m s plan
  Runs-after m k s t plan quiet same r = record {
    err = r.err;
    after = r.after;
    done = r.done;
    rest = r.rest;
    returns = same ∙ r.returns;
    extends = Extends-trans quiet r.extends;
    prefix = r.prefix;
    complete = r.complete;
  }

-- One transfer carries out what its frame asks for, unless the driver is not initialised.
pub transfer-Runs :
    (esp : Esp) (tx : Option (List ℕ)) (reads : Bool) (len : ℕ) (s : Firmware) (ops : List FlashOp)
    → ((a : Answer) → tx_ops a tx ≡ ops)
    → Runs esp (do r ← nic_chip_hal_spi_transfer esp tx reads len; pure r.0) s ops
unfolding nic_chip_hal_spi_transfer
transfer-Runs esp tx reads len s ops asks = elim (Bool-cases s.nic_hal.initialized) [
  | inl on ↦
      let call = spi_device_transmit s.nic_hal.spi_dev tx reads (len * 8) in
      record {
        err = if is_esp_ok (esp.answer s.world call) then rtos_ok else rtos_err_fail;
        after = record s { world = call ∷ s.world };
        done = ops;
        rest = [];
        returns = rw on;
        extends = record {
          same = refl;
          ops =
              unfold flash_ops in
              ap (λ (l : List FlashOp). flash_ops esp s.world ++ l)
                (asks (esp.answer s.world call));
        };
        prefix = append-nil _;
        complete = λ _. refl;
      }
  | inr off ↦ record {
    err = rtos_err_fail;
    after = s;
    done = [];
    rest = ops;
    returns = rw off;
    extends = Extends-refl s;
    prefix = refl;
    complete = λ e. absurd (cc);
  }
]
