-- ===== src/Interrupt/Gates.antt =====
-- What the gates and handlers of KluxOS/src/kernel/interrupt/idt.c hold.
use klux_os.Interrupt.{
  call_if_set, end_of_interrupt, call, gate_flags, idt_entries, no_gate, register_interrupt_handler,
  Gate, Idt, idt_init, irq_handler, set_gate, set_gates,
}
use mathlib.Core.Path.{subst}
use klux_os.Base.{
  if_false, ◌++◌, get_or-replicate, bit_and-ones, dec_lt, ◌==◌, get_or-set_self, length-replicate,
  replicate, set, ℕ_discrete, get_or-set_ne, ◌-◌, ◌/◌, ◌⊎◌, bit_and, ltb, ◌%◌, ◌≢◌, ◌≤◌, All,
  length-set, ◌+◌, ◌^◌, List, get_or, length, ◌*◌, ◌<◌, ◌≡◌, ℕ, suc, refl, arith, [], ◌∷◌, true,
  false, inl, inr, ◌∙◌, ap, sym, if◌then◌else◌,
}

-- The address that the processor reads from a gate.
abbrev pub gate_base : Gate → ℕ
gate_base g = g.base_high * 2 ^ 16 + g.base_low

abbrev pub gate_at : Idt → ℕ → Gate
gate_at idt n = get_or idt.gates n no_gate

-- A gate that leads to a stub in ring 0.
abbrev pub IsGateTo : ℕ → Gate → Type 0
IsGateTo stub g =
    (gate_base g ≡ stub) × (g.selector ≡ 0x08) × (g.flags ≡ gate_flags) × (g.reserved ≡ 0)

abbrev IsStub : ℕ → Type 0
IsStub stub = stub < 2 ^ 32

length-set_gate :
    (num base selector flags : ℕ) (idt : Idt)
    → length (set_gate num base selector flags idt).gates ≡ length idt.gates
unfolding set_gate
length-set_gate num base selector flags idt = length-set idt.gates (num % 2 ^ 8) _

-- An address of 32 bits comes back from the two halves that a gate keeps.
pub set_gate-IsGateTo :
    (num stub : ℕ) (idt : Idt)
    → num < length idt.gates
    → num < idt_entries
    → stub < 2 ^ 32
    → IsGateTo stub (gate_at (set_gate num stub 0x08 gate_flags idt) num)
unfolding set_gate
set_gate-IsGateTo num stub idt inside byte word =
    let g : Gate = record {
      base_low = bit_and stub 0xFFFF;
      base_high = bit_and (stub / 2 ^ 16) 0xFFFF;
      selector = 0x08;
      reserved = 0;
      flags = gate_flags;
    } in
    let n : num % 2 ^ 8 ≡ num = omega arith in
    let at : gate_at (set_gate num stub 0x08 gate_flags idt) num ≡ g =
      ap (λ k. get_or (set idt.gates k g) num no_gate) n
      ∙ get_or-set_self idt.gates num g no_gate inside in
    let low : bit_and stub 0xFFFF ≡ stub % 2 ^ 16 = bit_and-ones 16 stub in
    let high : bit_and (stub / 2 ^ 16) 0xFFFF ≡ stub / 2 ^ 16 % 2 ^ 16 =
      bit_and-ones 16 (stub / 2 ^ 16) in
    (
      ap gate_base at ∙ omega (arith, low, high),
      ap (λ (h : Gate). h.selector) at,
      ap (λ (h : Gate). h.flags) at,
      ap (λ (h : Gate). h.reserved) at,
    )

gate_at-set_gate_ne :
    (num base selector flags n : ℕ) (idt : Idt)
    → num < idt_entries
    → n ≢ num
    → gate_at (set_gate num base selector flags idt) n ≡ gate_at idt n
unfolding set_gate
gate_at-set_gate_ne num base selector flags n idt byte ne =
    get_or-set_ne idt.gates (num % 2 ^ 8) n _ no_gate (λ p. ne (omega (arith, p)))

length-set_gates :
    (i : ℕ) (stubs : List ℕ) (idt : Idt) → length (set_gates i stubs idt).gates ≡ length idt.gates
unfolding set_gates
length-set_gates i [] idt = refl
length-set_gates i (stub ∷ stubs) idt =
    length-set_gates (i + 1) stubs (set_gate i stub 0x08 gate_flags idt)
    ∙ length-set_gate i stub 0x08 gate_flags idt

set_gates-outside :
    (i : ℕ) (stubs : List ℕ) (n : ℕ) (idt : Idt)
    → i + length stubs ≤ idt_entries
    → (n < i) ⊎ (i + length stubs ≤ n)
    → gate_at (set_gates i stubs idt) n ≡ gate_at idt n
unfolding set_gates
set_gates-outside i [] n idt fits out = refl
set_gates-outside i (stub ∷ stubs) n idt fits (inl below) =
    set_gates-outside (i + 1) stubs n (set_gate i stub 0x08 gate_flags idt) (omega arith)
      (inl (omega arith))
    ∙ gate_at-set_gate_ne i stub 0x08 gate_flags n idt (omega arith) (λ p. omega arith)
set_gates-outside i (stub ∷ stubs) n idt fits (inr above) =
    set_gates-outside (i + 1) stubs n (set_gate i stub 0x08 gate_flags idt) (omega arith)
      (inr (omega arith))
    ∙ gate_at-set_gate_ne i stub 0x08 gate_flags n idt (omega arith) (λ p. omega arith)

set_gates-inside :
    (i : ℕ) (stubs : List ℕ) (n : ℕ) (idt : Idt)
    → length idt.gates ≡ idt_entries
    → i + length stubs ≤ idt_entries
    → All IsStub stubs
    → i ≤ n
    → n < i + length stubs
    → IsGateTo (get_or stubs (n - i) 0) (gate_at (set_gates i stubs idt) n)
unfolding set_gates
set_gates-inside i [] n idt full fits words low high = absurd (omega arith)
set_gates-inside i (stub ∷ stubs) n idt full fits words low high =
    let next = set_gate i stub 0x08 gate_flags idt in
    let len = length-set_gate i stub 0x08 gate_flags idt in
    elim (ℕ_discrete n i) [
      | yes p ↦
          let kept =
            set_gates-outside (i + 1) stubs n next (omega arith) (inl (omega (arith, p))) in
          let here = set_gate-IsGateTo i stub idt (omega (arith, full)) (omega arith) words.0 in
          let same : gate_at (set_gates (i + 1) stubs next) n ≡ gate_at next i =
            kept ∙ ap (gate_at next) p in
          let z : n - i ≡ 0 = omega (arith, p) in
          subst (λ g. IsGateTo (get_or (stub ∷ stubs) (n - i) 0) g) (sym same)
            (subst (λ k. IsGateTo (get_or (stub ∷ stubs) k 0) (gate_at next i)) (sym z) here)
      | no ne ↦
          let ih =
            set_gates-inside (i + 1) stubs n next (len ∙ full) (omega arith) words.1
              (omega (arith, ne)) (omega arith) in
          let z : n - i ≡ suc (n - (i + 1)) = omega (arith, ne) in
          subst
            (λ k. IsGateTo (get_or (stub ∷ stubs) k 0) (gate_at (set_gates (i + 1) stubs next) n))
            (sym z) ih
    ]

-- After the set-up with 32 exception stubs and 16 interrupt stubs, each of the gates 0 to 47 leads
-- to its stub, and the gates from 48 on are not present.
pub idt_init-IsGateTo :
    (isrs irqs : List ℕ) (n : ℕ) (idt : Idt)
    → length isrs ≡ 32
    → length irqs ≡ 16
    → All IsStub isrs
    → All IsStub irqs
    → n < idt_entries
    → if ltb n 32
      then IsGateTo (get_or isrs n 0) (gate_at (idt_init isrs irqs idt) n)
      else if ltb n 48
      then IsGateTo (get_or irqs (n - 32) 0) (gate_at (idt_init isrs irqs idt) n)
      else (gate_at (idt_init isrs irqs idt) n ≡ no_gate)
unfolding idt_init
idt_init-IsGateTo isrs irqs n idt isr_count irq_count isr_words irq_words inside =
    let empty : Idt = record idt { gates = replicate idt_entries no_gate } in
    let full : length empty.gates ≡ idt_entries = length-replicate idt_entries no_gate in
    let first = set_gates 0 isrs empty in
    let len : length first.gates ≡ idt_entries = length-set_gates 0 isrs empty ∙ full in
    elim (dec_lt n 32) [
      | yes low ↦
          let t : ltb n 32 ≡ true = ground (arith, low) in
          let kept = set_gates-outside 32 irqs n first (omega (arith, irq_count)) (inl low) in
          let here =
            set_gates-inside 0 isrs n empty full (omega (arith, isr_count)) isr_words (omega arith)
              (omega (arith, isr_count)) in
          let z : n - 0 ≡ n = omega arith in
          rw t (
            subst (λ g. IsGateTo (get_or isrs n 0) g) (sym kept)
              (subst (λ k. IsGateTo (get_or isrs k 0) (gate_at first n)) z here))
      | no high ↦
          let f : ltb n 32 ≡ false = ground (arith, high) in
          elim (dec_lt n 48) [
            | yes low ↦
                let t : ltb n 48 ≡ true = ground (arith, low) in
                rw f (
                  rw t (
                    set_gates-inside 32 irqs n first len (omega (arith, irq_count)) irq_words
                      (omega arith) (omega (arith, irq_count))))
            | no out ↦
                let g : ltb n 48 ≡ false = ground (arith, out) in
                rw f (
                  rw g (
                    set_gates-outside 32 irqs n first (omega (arith, irq_count))
                      (inr (omega (arith, irq_count)))
                    ∙ set_gates-outside 0 isrs n empty (omega (arith, isr_count))
                        (inr (omega (arith, isr_count)))
                    ∙ get_or-replicate idt_entries n no_gate no_gate inside))
          ]
    ]

-- An interrupt line calls the handler that was registered last for it, and then ends the
-- interrupt, at the second controller first for the lines from 8 on.
pub irq_handler-register_interrupt_handler :
    (irq_no handler : ℕ) (idt : Idt)
    → irq_no < 16
    → 0 < handler
    → length idt.handlers ≡ idt_entries
    → irq_handler irq_no (register_interrupt_handler (irq_no + 32) handler idt)
      ≡ call handler 0 ∷ end_of_interrupt irq_no
unfolding irq_handler register_interrupt_handler
irq_handler-register_interrupt_handler irq_no handler idt line pos full =
    let n : (irq_no + 32) % 2 ^ 8 ≡ irq_no + 32 = omega arith in
    let at : get_or (set idt.handlers ((irq_no + 32) % 2 ^ 8) handler) (irq_no + 32) 0 ≡ handler =
      ap (λ k. get_or (set idt.handlers k handler) (irq_no + 32) 0) n
      ∙ get_or-set_self idt.handlers (irq_no + 32) handler 0 (omega (arith, full)) in
    let set_up : (handler == 0) ≡ false = ground (arith, pos) in
    ap (λ h. call_if_set h ++ end_of_interrupt irq_no) at
    ∙ ap (λ l. l ++ end_of_interrupt irq_no) (if_false _ _ set_up)
