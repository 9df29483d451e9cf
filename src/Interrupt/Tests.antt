-- ===== src/Interrupt/Tests.antt =====
-- The theorems on KluxOS/src/kernel/interrupt/idt.c at concrete inputs.
use klux_os.Interrupt.Gates.{idt_init-IsGateTo, gate_at, IsGateTo}
use klux_os.Interrupt.{idt_init, idt_entries, Idt}
use klux_os.Base.{◌^◌, ◌<◌, All-replicate, get_or, replicate, ℕ, List, refl, arith, []}

abbrev empty_idt : Idt
empty_idt = record { gates = []; handlers = replicate idt_entries 0 }

abbrev isr_stubs : List ℕ
isr_stubs = replicate 32 0x0010_1000

abbrev irq_stubs : List ℕ
irq_stubs = replicate 16 0x0010_2000

-- Gate 33 is the keyboard's.
idt_init-IsGateTo_example :
    IsGateTo (get_or irq_stubs 1 0) (gate_at (idt_init isr_stubs irq_stubs empty_idt) 33)
idt_init-IsGateTo_example =
    idt_init-IsGateTo isr_stubs irq_stubs 33 empty_idt refl refl
      (All-replicate (λ s. s < 2 ^ 32) 32 0x0010_1000 (omega arith))
      (All-replicate (λ s. s < 2 ^ 32) 16 0x0010_2000 (omega arith)) (omega arith)
