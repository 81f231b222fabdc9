-- ===== src/Idt/Gate.antt =====
-- The gates of the table, and the messages of a page fault.
use native.Mathlib.Decide.{ℕ_discrete}
use terracotta_os.Prelude.{
  ℕ, zero, suc, ◌+◌, ◌*◌, ◌/◌, ◌%◌, ◌^◌, ◌≤◌, ◌<◌, ◌≡◌, ◌≢◌, refl, ◌∙◌, ◌⊎◌, inl, inr, List, [],
  ◌∷◌, Bool, true, false, ◌&&◌, ◌||◌, ltb, leb, ◌==◌, ==_ne, if◌then◌else◌, arith,
}
use terracotta_os.Idt.{
  IdtEntry, Table, idt_set_desc, exceptions_loop, idt_init_exceptions, has_message, prints,
  page_fault_loop, print_page_fault_error,
}

-- The address that the processor takes from a gate.
abbrev pub gate_address : IdtEntry → ℕ
gate_address e = e.isr_low + e.isr_mid * 2 ^ 16 + e.isr_high * 2 ^ 32

-- `idt_set_desc` splits a 64-bit address so that the gate leads back to it, with the kernel's code
-- segment and the given flags, and leaves the other gates.
pub idt_set_desc_lem :
    (idt : Table) (vector isr flags : ℕ)
    → isr < 2 ^ 64
    → (gate_address (idt_set_desc idt vector isr flags vector) ≡ isr)
      × ((idt_set_desc idt vector isr flags vector).attributes ≡ flags)
      × ((idt_set_desc idt vector isr flags vector).kernel_cs ≡ 8)
      × ((v : ℕ) → v ≢ vector → idt_set_desc idt vector isr flags v ≡ idt v)
unfolding idt_set_desc
idt_set_desc_lem idt vector isr flags h =
    let self : (vector == vector) ≡ true = ground arith in
    (rw self (omega arith), rw self, rw self, λ v ne. rw (==_ne v vector ne))

-- A gate of the kernel for `isr`.
abbrev pub IsGate : IdtEntry → ℕ → Type 0
IsGate e isr = (gate_address e ≡ isr) × (e.attributes ≡ 0x8e)

module _ (stubs : ℕ → ℕ) (addresses : (v : ℕ) → stubs v < 2 ^ 64) where
  loop_gates :
      (vector left : ℕ) (idt : Table) (vectors : ℕ → Bool) (v : ℕ)
      → (vector ≤ v
          → v < vector + left
          → IsGate ((exceptions_loop stubs vector left (idt, vectors)).0 v) (stubs v)
            × ((exceptions_loop stubs vector left (idt, vectors)).1 v ≡ true))
        × ((v < vector) ⊎ (vector + left ≤ v)
            → ((exceptions_loop stubs vector left (idt, vectors)).0 v ≡ idt v)
              × ((exceptions_loop stubs vector left (idt, vectors)).1 v ≡ vectors v))
  unfolding exceptions_loop
  loop_gates vector zero idt vectors v = (λ lo hi. absurd (omega arith), λ out. (refl, refl))
  loop_gates vector (suc left) idt vectors v =
      let rest =
        loop_gates (vector + 1) left (idt_set_desc idt vector (stubs vector) 0x8e)
          (λ w. if w == vector then true else vectors w) v in
      let (address, flags, cs, others) =
        idt_set_desc_lem idt vector (stubs vector) 0x8e (addresses vector) in
      (
        λ lo hi. elim (ℕ_discrete v vector) [
          | yes same ↦
              let kept = rest.1 (inl (omega arith)) in
              let self : (if vector == vector then true else vectors vector) ≡ true =
                ground arith in
              rw (kept.0, kept.1, same) ((address, flags), self)
          | no ne ↦ rest.0 (omega arith) (omega arith)
        ],
        λ out.
            let kept = rest.1 (omega arith) in
            let ne : v ≢ vector = omega arith in
            (kept.0 ∙ others v ne, kept.1 ∙ rw (==_ne v vector ne)),
      )

  -- `idt_init_exceptions` gives each of the 32 exceptions its stub, records it in `vectors`, and leaves
  -- the gates from 32 on.
  pub idt_init_exceptions_lem :
      (idt : Table) (vectors : ℕ → Bool) (v : ℕ)
      → (v < 32
          → IsGate ((idt_init_exceptions stubs (idt, vectors)).0 v) (stubs v)
            × ((idt_init_exceptions stubs (idt, vectors)).1 v ≡ true))
        × (32 ≤ v
            → ((idt_init_exceptions stubs (idt, vectors)).0 v ≡ idt v)
              × ((idt_init_exceptions stubs (idt, vectors)).1 v ≡ vectors v))
  unfolding idt_init_exceptions
  idt_init_exceptions_lem idt vectors v =
      let all = loop_gates 0 32 idt vectors v in
      (λ lt. all.0 (omega arith) (omega arith), λ le. all.1 (inr (omega arith)))

-- Membership in a list of bits.
abbrev pub has : ℕ → List ℕ → Bool
has b [] = false
has b (x ∷ xs) = x == b || has b xs

page_fault_loop_lem :
    (err from left bit : ℕ)
    → has bit (page_fault_loop err from left)
      ≡ (prints err bit && (leb from bit && ltb bit (from + left)))
unfolding page_fault_loop
page_fault_loop_lem err from zero bit = ground arith
page_fault_loop_lem err from (suc left) bit =
    ground (arith, page_fault_loop_lem err (from + 1) left bit)

-- The messages of a page fault are those of the bits 0 to 5 and 15 that are set in its error code.
pub print_page_fault_error_lem :
    (err bit : ℕ)
    → has bit (print_page_fault_error err) ≡ (err / 2 ^ bit % 2 == 1 && (ltb bit 6 || bit == 15))
unfolding print_page_fault_error prints has_message
print_page_fault_error_lem err bit = page_fault_loop_lem err 0 64 bit ∙ ground arith
