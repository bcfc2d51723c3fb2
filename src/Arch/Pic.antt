-- ===== src/Arch/Pic.antt =====
-- The 8259 interrupt controllers, kernel/src/arch/x86_64/pic.c. A port is written by `outb` and read by
-- `inb`, which is the processor's and the device's: `Ports` keeps what was written, in order, and the
-- values that the ports hold. The delay `io_wait` is left out.
pub mod Masks
use Prim.Native.Nat.{bit_or}
use ded_os.Base.{ℕ, ◌+◌, ◌-◌, Bool, List, [], ◌∷◌, ltb, leb, ◌==◌, if◌then◌else◌}
use ded_os.Base.BitOps.{set_bit, clear_bit}
use ded_os.Base.Memory.{update}

-- `written` has the last write first.
pub record Ports : Type 0 where
  pub held : ℕ → ℕ
  pub written : List (ℕ × ℕ)

abbrev pub pic1_command : ℕ
pic1_command = 0x20

abbrev pub pic1_data : ℕ
pic1_data = 0x21

abbrev pub pic2_command : ℕ
pic2_command = 0xA0

abbrev pub pic2_data : ℕ
pic2_data = 0xA1

abbrev pub pic_eoi : ℕ
pic_eoi = 0x20

-- ICW1_INIT | ICW1_ICW4, and ICW4_8086.
abbrev pub icw1 : ℕ
icw1 = 0x11

abbrev pub icw4_8086 : ℕ
icw4_8086 = 0x01

unfoldable pub outb : ℕ → ℕ → Ports → Ports
outb port value s = record { held = update s.held port value; written = (port, value) ∷ s.written }

abbrev pub inb : ℕ → Ports → ℕ
inb port s = s.held port

unfoldable pub pic_init : Ports → Ports
unfolding outb
pic_init s =
    let mask1 = inb pic1_data s in
    let mask2 = inb pic2_data s in
    let s1 = outb pic2_command icw1 (outb pic1_command icw1 s) in
    let s2 = outb pic2_data 0x28 (outb pic1_data 0x20 s1) in
    let s3 = outb pic2_data 0x02 (outb pic1_data 0x04 s2) in
    let s4 = outb pic2_data icw4_8086 (outb pic1_data icw4_8086 s3) in
    outb pic2_data mask2 (outb pic1_data mask1 s4)

unfoldable pub pic_send_eoi : ℕ → Ports → Ports
unfolding outb
pic_send_eoi irq s =
    let s' = if leb 8 irq then outb pic2_command pic_eoi s else s in outb pic1_command pic_eoi s'

-- The mask register of an interrupt, and its bit there.
abbrev pub mask_port : ℕ → ℕ
mask_port irq = if ltb irq 8 then pic1_data else pic2_data

abbrev pub mask_bit : ℕ → ℕ
mask_bit irq = if ltb irq 8 then irq else irq - 8

unfoldable pub pic_mask : ℕ → Ports → Ports
unfolding outb
pic_mask irq s = let port = mask_port irq in outb port (set_bit (inb port s) (mask_bit irq)) s

unfoldable pub pic_unmask : ℕ → Ports → Ports
unfolding outb
pic_unmask irq s = let port = mask_port irq in outb port (clear_bit (inb port s) (mask_bit irq)) s

unfoldable pub pic_disable : Ports → Ports
unfolding outb
pic_disable s = outb 0x23 0x01 (outb 0x22 0x70 (outb pic2_data 0xFF (outb pic1_data 0xFF s)))
