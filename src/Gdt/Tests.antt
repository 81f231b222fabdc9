-- ===== src/Gdt/Tests.antt =====
-- The gate of the timer.
use terracotta_os.Idt.{Table}

abbrev blank : Table
blank v = record {
  isr_low = 0;
  kernel_cs = 0;
  ist = 0;
  attributes = 0;
  isr_mid = 0;
  isr_high = 0;
  reserved = 0;
}
