-- ===== src/Pci/Address.antt =====
-- ASNU/src/PCI/pci.c: the address that the accesses to configuration space write.
use terracotta_os.Prelude.{ℕ, ◌+◌, ◌-◌, ◌*◌, ◌%◌, ◌^◌, ◌<◌, ◌≡◌, arith}
use terracotta_os.Word.Bits.{bit_or-add, bit_or_comm}
use terracotta_os.Pci.{at, address}

-- The fields of an address do not overlap.
pub address-sum :
    (bus slot func o : ℕ)
    → bus < 256
    → slot < 32
    → func < 8
    → o < 256
    → address (at bus slot func) o
      ≡ bus * 2 ^ 16 + slot * 2 ^ 11 + func * 2 ^ 8 + (o - o % 4) + 2 ^ 31
unfolding address
address-sum bus slot func o hb hs hf ho =
    let e1 = bit_or-add 16 bus (slot * 2 ^ 11) (omega arith) in
    let m1 : bus * 2 ^ 16 + slot * 2 ^ 11 ≡ (bus * 32 + slot) * 2 ^ 11 = omega arith in
    let e2 = bit_or-add 11 (bus * 32 + slot) (func * 2 ^ 8) (omega arith) in
    let m2 : (bus * 32 + slot) * 2 ^ 11 + func * 2 ^ 8 ≡ ((bus * 32 + slot) * 8 + func) * 2 ^ 8 =
      omega arith in
    let e3 = bit_or-add 8 ((bus * 32 + slot) * 8 + func) (o - o % 4) (omega arith) in
    let low : ((bus * 32 + slot) * 8 + func) * 2 ^ 8 + (o - o % 4) < 2 ^ 31 = omega arith in
    let e4 = bit_or-add 31 1 (((bus * 32 + slot) * 8 + func) * 2 ^ 8 + (o - o % 4)) low in
    rw (e1, m1, e2, m2, e3)
      (omega
        (arith, bit_or_comm (((bus * 32 + slot) * 8 + func) * 2 ^ 8 + (o - o % 4)) 0x8000_0000, e4))
