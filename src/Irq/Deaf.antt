-- ===== src/Irq/Deaf.antt =====
-- What a tick of the timer that switches to another process means for the interrupts.
use mathlib.Core.Path.{subst}
use terracotta_os.Prelude.{◌≡◌, refl, ap, sym, ◌∙◌, Bool, true, false, arith}
use terracotta_os.Io.{Bus}
use terracotta_os.Idt.Pic.{idt_pic_send_eoi-first}
use terracotta_os.Sched.{Control, returns, jumps}
use terracotta_os.Sched.Data.{RegisterState}
use terracotta_os.Pit.Tick.{AfterTick, pit_handler_lem}
use terracotta_os.Irq.{
  HasPic, System, Event, tick, key, on_timer, ready, arrive, Step, interrupt, writes, reads, Reach,
  here, next,
}

module _ (b : Bus) (c : HasPic b) where
  -- Nothing but the devices has changed, and the timer's interrupt is in service.
  record IsDeaf (s t : System b) : Type 0 where
    busy : c.in_service t.devices 0 ≡ true
    pit_kept : t.pit ≡ s.pit
    sched_kept : t.sched ≡ s.sched
    keyboard_kept : t.keyboard ≡ s.keyboard

  -- With the line of the timer in service no interrupt is delivered.
  arrive-busy : (t : System b) (e : Event) → c.in_service t.devices 0 ≡ true → arrive b c e t ≡ t
  unfolding arrive
  arrive-busy t (tick cpu) busy =
      let shut : ready b c t.devices 0 ≡ false = ground arith in rw shut refl
  arrive-busy t key busy = let shut : ready b c t.devices 1 ≡ false = ground arith in rw shut refl

  Step-IsDeaf : {s t u : System b} → IsDeaf s t → Step b c t u → IsDeaf s u
  Step-IsDeaf {s} {t} h (interrupt e) = subst (IsDeaf s) (sym (arrive-busy t e h.busy)) h
  Step-IsDeaf {s} {t} h (writes port v other) = record {
    busy = c.out_keeps port v 0 t.devices other ∙ h.busy;
    pit_kept = h.pit_kept;
    sched_kept = h.sched_kept;
    keyboard_kept = h.keyboard_kept;
  }
  Step-IsDeaf {s} {t} h (reads port) = record {
    busy = c.in_keeps port 0 t.devices ∙ h.busy;
    pit_kept = h.pit_kept;
    sched_kept = h.sched_kept;
    keyboard_kept = h.keyboard_kept;
  }

  Reach-IsDeaf : {s t : System b} → c.in_service s.devices 0 ≡ true → Reach b c s t → IsDeaf s t
  Reach-IsDeaf busy here = record {
    busy = busy;
    pit_kept = refl;
    sched_kept = refl;
    keyboard_kept = refl;
  }
  Reach-IsDeaf busy (next r st) = Step-IsDeaf (Reach-IsDeaf busy r) st

  -- A tick that comes back ends the service of its interrupt, and one that switches to another
  -- process leaves it in service.
  abbrev pub switched : Control → Bool
  switched returns = false
  switched (jumps regs) = true

  in_service-AfterTick :
      (control : Control)
      → (before after : b.Devices) → c.in_service before 0 ≡ true
      → AfterTick b control before after
      → c.in_service after 0 ≡ switched control
  in_service-AfterTick returns before after busy e =
      ap (λ d. c.in_service d 0) (e ∙ idt_pic_send_eoi-first b 0 before (omega arith))
      ∙ (c.ends_first before busy).0
  in_service-AfterTick (jumps regs) before after busy e = ap (λ d. c.in_service d 0) e ∙ busy

  pub on_timer-in_service :
      (s : System b)
      → (cpu : RegisterState)
      → c.in_service (on_timer b c s cpu).1.devices 0 ≡ switched (on_timer b c s cpu).0
  unfolding on_timer
  on_timer-in_service s cpu =
      let d = c.deliver 0 s.devices in
      let (control, sched, d', e, ticked, after) = pit_handler_lem b s.pit s.sched cpu d in
      rw e (in_service-AfterTick control d d' (c.deliver_sets 0 s.devices (omega arith)) after)

  -- On controllers of the documented behaviour, once a tick of the timer has switched to another
  -- process, no interrupt of the timer or of the keyboard is handled any more, whatever the processes
  -- do with the other ports: the count of ticks, the scheduler and the keyboard stay as they are.
  pub switch-deaf :
      (s t : System b)
      → (cpu : RegisterState) → switched (on_timer b c s cpu).0 ≡ true
      → Reach b c (on_timer b c s cpu).1 t
      → (t.pit ≡ (on_timer b c s cpu).1.pit)
        × (t.sched ≡ (on_timer b c s cpu).1.sched)
        × (t.keyboard ≡ (on_timer b c s cpu).1.keyboard)
  switch-deaf s t cpu jumped r =
      let h = Reach-IsDeaf (on_timer-in_service s cpu ∙ jumped) r in
      (h.pit_kept, h.sched_kept, h.keyboard_kept)
