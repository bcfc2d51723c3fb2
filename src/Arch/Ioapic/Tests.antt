-- ===== src/Arch/Ioapic/Tests.antt =====
-- An I/O APIC as the number of the selected register and the registers.
use ded_os.Base.{ℕ, ◌%◌, ◌^◌, ◌≡◌, refl, some, arith, leb, ◌&&◌, if◌then◌else◌}
use ded_os.Base.Memory.{update}
use ded_os.Arch.Ioapic.{Device, ioapic_masked, mask_all}
use ded_os.Arch.Ioapic.Entries.{redirection}
use ded_os.Arch.Ioapic.Masks.{mask_all-masks}

abbrev Window : Type 0
Window = ℕ × (ℕ → ℕ)

-- A register holds 32 bits.
abbrev device : Device Window
device = record {
  select = λ r d. (r, d.1);
  put = λ v d. (d.0, update d.1 d.0 v);
  get = λ d. d.1 d.0 % 2 ^ 32;
  reg = λ d r. d.1 r % 2 ^ 32;
  get_selected = λ d r. refl;
  reg_selected = λ d r j. refl;
  reg_put = λ d r v j small h. unfold update in ground (arith, h);
  reg_word = λ d r. omega arith;
}

abbrev filled : Window
filled = (0, λ r. r)

mask_all-masks_example :
    (d' : Window) × (mask_all device 25 0 23 filled ≡ some d')
    × ((j : ℕ)
        → redirection device d' j
          ≡ (if leb 0 j && leb j 23 then ioapic_masked else redirection device filled j))
mask_all-masks_example =
    mask_all-masks device 25 0 23 filled (omega arith) (omega arith) (omega arith)
