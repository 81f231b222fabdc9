-- ===== src/Xhci/Tests.antt =====
-- A controller whose registers all answer the same, with the number of writes as its state.
use terracotta_os.Prelude.{
  ℕ, ◌⊎◌, suc, ◌+◌, ◌*◌, ◌%◌, ◌^◌, ◌≡◌, refl, true, false, none, ◌==◌, if◌then◌else◌, arith,
}
use terracotta_os.Io.{Bus}
use terracotta_os.Idt.{Table}
use terracotta_os.Xhci.{Mmio, Xhci, xhci_irq_handler, x_hci_init}
use terracotta_os.Xhci.Handler.{IsStarted, xhci_irq_handler-IsStarted}
use terracotta_os.Xhci.Start.{HasParams, Starts, x_hci_init_lem}

abbrev writes : Bus
writes = record {
  Devices = ℕ;
  outb = λ port v d. suc d;
  inb = λ port d. (0, d);
  outl = λ port v d. suc d;
  inl = λ port d. (0, d);
  outw = λ port v d. d;
  inw = λ port d. (0, d);
}

abbrev always : ℕ → Mmio writes
always v = record {
  read8 = λ a d. (v % 256, d);
  read32 = λ a d. (v, d);
  write32 = λ a v d. suc d;
  ki_mmap = λ va pa flags d. d;
  ki_pic_send_eoi = λ irq d. suc d;
}

abbrev driver : Xhci
driver = record {
  mmio_base = 0xfeb0_0000;
  runtime_base = 0xfeb0_1000;
  doorbell_base = 0xfeb0_2000;
  irq_line = 11;
  phys = 0x4000;
  cycle = 1;
  index = 13;
  ring_segment_base_address = 0x4000;
  ring_segment_size = 16;
  have_keyboard = true;
  have_mouse = false;
}

driver-IsStarted : IsStarted driver
driver-IsStarted = record { aligned = refl; first_round = refl; in_ring = omega arith }

-- Every entry is a change at port 2, in the first cycle.
abbrev events : ℕ → ℕ
events k = if k == 15 then 0x20 * 2 ^ 10 + 1 else 2 * 2 ^ 24

abbrev no_gates : Table
no_gates v = record {
  isr_low = 0;
  kernel_cs = 0;
  ist = 0;
  attributes = 0;
  isr_mid = 0;
  isr_high = 0;
  reserved = 0;
}

xhci_irq_handler-IsStarted_example :
    IsStarted (xhci_irq_handler writes (always 0) events driver 0).0
xhci_irq_handler-IsStarted_example =
    xhci_irq_handler-IsStarted writes (always 0) events driver 0 driver-IsStarted

-- 32 device slots, 8 interrupters and 4 ports.
abbrev params : ℕ
params = 32 + 8 * 2 ^ 8 + 4 * 2 ^ 24

abbrev params-HasParams : HasParams writes (always params) 0xfeb0_0000
params-HasParams = record {
  max_slots = 32;
  max_intrs = 8;
  max_ports = 4;
  slots_byte = omega arith;
  answers = λ d. refl;
}

x_hci_init_lem_example :
    ((params-HasParams.max_slots % 2 ≡ 0)
      × Starts writes (always params) 1 0xfeb0_0000 11 0x4000 0x5000 0x6000 driver no_gates 0)
    ⊎ ((params-HasParams.max_slots % 2 ≡ 1)
        × (x_hci_init writes (always params) 1 0xfeb0_0000 11 0x4000 0x5000 0x6000 driver no_gates 0
            ≡ none))
x_hci_init_lem_example =
    x_hci_init_lem writes (always params) 1 0xfeb0_0000 11 0x4000 0x5000 0x6000 params-HasParams
      driver no_gates 0 (omega arith) refl (omega arith)
