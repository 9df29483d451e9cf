-- ===== src/Interrupt.antt =====
-- The interrupt tables: KluxOS/src/kernel/interrupt/idt.c, and KluxOS/src/kernel/interrupt.c, which
-- declares the same functions once more.
pub mod Gates
mod Tests
use klux_os.Pic.{send_eoi}
use klux_os.Base.{
  ◌/◌, bit_and, ◌^◌, ◌%◌, bit_or, get_or, leb, replicate, set, ◌++◌, ◌+◌, ◌==◌, List, ℕ, zero, suc,
  refl, arith, [], ◌∷◌, none, some, true, false, if◌then◌else◌,
}

-- `idt_entry_t`; `reserved` is named `zero` in interrupt.c.
pub record Gate : Type 0 where
  pub base_low : ℕ
  pub selector : ℕ
  pub reserved : ℕ
  pub flags : ℕ
  pub base_high : ℕ

-- `idt_entries`, and `interrupt_handlers` as addresses, 0 for a null pointer.
pub record Idt : Type 0 where
  pub gates : List Gate
  pub handlers : List ℕ

abbrev pub idt_entries : ℕ
idt_entries = 256

abbrev pub no_gate : Gate
no_gate = record { base_low = 0; selector = 0; reserved = 0; flags = 0; base_high = 0 }

-- `num` is one byte and so inside the table.
unfoldable pub set_gate : (num base selector flags : ℕ) → Idt → Idt
set_gate num base selector flags idt = record idt {
  gates = set idt.gates (num % 2 ^ 8) (record {
    base_low = bit_and base 0xFFFF;
    base_high = bit_and (base / 2 ^ 16) 0xFFFF;
    selector = selector;
    reserved = 0;
    flags = flags;
  });
}

-- IDT_FLAG_PRESENT | IDT_FLAG_RING0 | IDT_FLAG_32BIT
abbrev pub gate_flags : ℕ
gate_flags = bit_or (bit_or 0x80 0x00) 0x0E

-- The calls of `idt_set_gate` for the stubs in `isrs.asm`, from the number `i` on.
unfoldable pub set_gates : (i : ℕ) (stubs : List ℕ) → Idt → Idt
set_gates i [] idt = idt
set_gates i (stub ∷ stubs) idt = set_gates (i + 1) stubs (set_gate i stub 0x08 gate_flags idt)

-- `idt_init`: the `memset`, and the gates of the 32 exceptions and the 16 interrupt lines.
unfoldable pub idt_init : (isrs irqs : List ℕ) → Idt → Idt
idt_init isrs irqs idt =
    set_gates 32 irqs (set_gates 0 isrs (record idt { gates = replicate idt_entries no_gate }))

-- `init_idt` of interrupt.c, which also forgets the handlers; it has four gates.
unfoldable pub init_idt : (isr0 isr1 irq0 irq1 : ℕ) → Idt → Idt
init_idt isr0 isr1 irq0 irq1 idt =
    let empty : Idt = record {
      gates = replicate idt_entries no_gate;
      handlers = replicate idt_entries 0;
    } in
    set_gate 33 irq1 0x08 0x8E
      (set_gate 32 irq0 0x08 0x8E (set_gate 1 isr1 0x08 0x8E (set_gate 0 isr0 0x08 0x8E empty)))

unfoldable pub register_interrupt_handler : (num handler : ℕ) → Idt → Idt
register_interrupt_handler num handler idt = record idt {
  handlers = set idt.handlers (num % 2 ^ 8) handler;
}

-- What a handler of interrupts does, in order.
pub data Action : Type 0 where
  call : (handler argument : ℕ) → Action
  send_byte : (port byte : ℕ) → Action
  report_unhandled : (int_no err_code : ℕ) → Action

-- `isr_handler` of idt.c, for a number inside the table.
unfoldable pub isr_handler : (int_no err_code : ℕ) → Idt → List Action
isr_handler int_no err_code idt =
    let handler = get_or idt.handlers int_no 0 in
    if handler == 0 then report_unhandled int_no err_code ∷ [] else call handler err_code ∷ []

abbrev pub sent : List (ℕ × ℕ) → List Action
sent [] = []
sent ((port, byte) ∷ bytes) = send_byte port byte ∷ sent bytes

-- `pic_send_eoi`; `irq_handler` of interrupt.c writes the same bytes itself.
abbrev pub end_of_interrupt : (irq_no : ℕ) → List Action
end_of_interrupt irq_no = sent (send_eoi irq_no)

abbrev pub call_if_set : ℕ → List Action
call_if_set handler = if handler == 0 then [] else call handler 0 ∷ []

-- `irq_handler` of idt.c: the handler, and then the end of the interrupt.
unfoldable pub irq_handler : (irq_no : ℕ) → Idt → List Action
irq_handler irq_no idt =
    call_if_set (get_or idt.handlers (irq_no + 32) 0) ++ end_of_interrupt irq_no

-- `irq_handler` of interrupt.c: the end of the interrupt comes first.
unfoldable pub irq_handler_early : (irq_no : ℕ) → Idt → List Action
irq_handler_early irq_no idt =
    end_of_interrupt irq_no ++ call_if_set (get_or idt.handlers (irq_no + 32) 0)
