-- ===== src/Start/Parts.antt =====
-- What the parts that `kmain` starts besides the scheduler are like when it waits.
use terracotta_os.Prelude.{ℕ, ◌^◌, ◌<◌, ◌≡◌, ◌≢◌, refl, false}
use terracotta_os.Word.Bytes.{test_bit}
use terracotta_os.Io.{Bus, va2pa}
use terracotta_os.Memory.{null}
use terracotta_os.Vmm.{Vmm}
use terracotta_os.Gdt.{gdt_init}
use terracotta_os.Pit.{Pit}
use terracotta_os.Idt.{idt_init, pic1_data}
use terracotta_os.Idt.Gate.{IsGate}
use terracotta_os.Idt.Init.{idt_init_lem, idt_init-opens}
use terracotta_os.Idt.Pic.{HasMask}
use terracotta_os.Sched.{Sched}
use terracotta_os.Start.{Addresses, Kernel}

-- The handlers are at 64-bit addresses.
pub record AreWords (a : Addresses) : Type 0 where
  pub stub : (v : ℕ) → a.isr_stub_table v < 2 ^ 64
  pub pit : a.pit_isr < 2 ^ 64
  pub keyboard : a.keyboard_isr < 2 ^ 64

module _ (b : Bus) where
  -- The parts that `kmain` starts, given that each of them can be.
  abbrev pub running_kernel : Addresses → Vmm → Pit → b.Devices → Sched → Kernel b → Kernel b
  running_kernel a v pit d s k =
      let (idt, d') = idt_init b a.isr_stub_table a.pit_isr a.keyboard_isr (k.idt, d) in
      record {
        vmm = record v { machine = s.machine };
        gdtr = gdt_init a.gdt;
        pit = pit;
        idt = idt;
        sched = s;
        devices = d';
      }

module _ (b : Bus) (c : HasMask b pic1_data) where
  -- The six segments are at their address, `cr3` holds the new top table, the timer has its
  -- frequency, the exceptions and the two interrupts have their handlers, and the lines of the timer
  -- and of the keyboard are open.
  pub record AreStarted (a : Addresses) (k : Kernel b) : Type 0 where
    pub gdt_at : k.gdtr.offset ≡ a.gdt
    pub gdt_size : k.gdtr.size ≡ 47
    pub top_table : (k.vmm.pml4 ≢ null) × (k.vmm.cr3 ≡ va2pa k.vmm.pml4)
    pub frequency : k.pit.pit_tick_freq ≡ 100
    pub exceptions : (v : ℕ) → v < 32 → IsGate (k.idt.0 v) (a.isr_stub_table v)
    pub timer_gate : IsGate (k.idt.0 0x20) a.pit_isr
    pub keyboard_gate : IsGate (k.idt.0 0x21) a.keyboard_isr
    pub timer_open : test_bit (c.mask k.devices) 0 ≡ false
    pub keyboard_open : test_bit (c.mask k.devices) 1 ≡ false

  pub running_kernel-AreStarted :
      (a : Addresses)
      → (v : Vmm) → (pit : Pit) → (d : b.Devices) → (s : Sched) → (k : Kernel b) → AreWords a
      → v.pml4 ≢ null
      → v.cr3 ≡ va2pa v.pml4
      → pit.pit_tick_freq ≡ 100
      → AreStarted a (running_kernel b a v pit d s k)
  unfolding gdt_init
  running_kernel-AreStarted a v pit d s k w ne top freq =
      let (exceptions, timer, keyboard, later) =
        idt_init_lem b a.isr_stub_table a.pit_isr a.keyboard_isr k.idt.0 k.idt.1 d w.stub w.pit
          w.keyboard in
      let (line_0, line_1) = idt_init-opens b a.isr_stub_table a.pit_isr a.keyboard_isr k.idt d c in
      record {
        gdt_at = refl;
        gdt_size = refl;
        top_table = (ne, top);
        frequency = freq;
        exceptions = exceptions;
        timer_gate = timer;
        keyboard_gate = keyboard;
        timer_open = line_0;
        keyboard_open = line_1;
      }
