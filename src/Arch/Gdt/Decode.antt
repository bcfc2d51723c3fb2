-- ===== src/Arch/Gdt/Decode.antt =====
-- What the processor reads out of the table that kernel/src/arch/x86_64/gdt.c builds.
use ded_os.Base.{ℕ, ◌+◌, ◌*◌, ◌/◌, ◌%◌, ◌^◌, ◌<◌, ◌≡◌, refl, Bool, true, false, ◌&&◌, arith, ◌==◌}
use ded_os.Base.Memory.{update}
use ded_os.Arch.Gdt.{Gdt, GdtEntry, tss_size, gdt_set_entry, gdt_init, gdt_update_tss_rsp}

-- The bits of a descriptor: it is there, its privilege level, and whether it is code; a code segment
-- of 64 bits.
abbrev pub is_present : GdtEntry → Bool
is_present e = e.access / 2 ^ 7 % 2 == 1

abbrev pub privilege : GdtEntry → ℕ
privilege e = e.access / 2 ^ 5 % 4

abbrev pub is_code : GdtEntry → Bool
is_code e = (e.access / 2 ^ 4 % 2 == 1) && (e.access / 2 ^ 3 % 2 == 1)

abbrev pub is_data : GdtEntry → Bool
is_data e = (e.access / 2 ^ 4 % 2 == 1) && (e.access / 2 ^ 3 % 2 == 0)

abbrev pub is_long : GdtEntry → Bool
is_long e = e.granularity / 2 ^ 5 % 2 == 1

-- The base and the limit of a system segment, which takes two entries.
abbrev pub system_base : GdtEntry → GdtEntry → ℕ
system_base e upper =
    e.base_low
    + e.base_mid * 2 ^ 16
    + e.base_high * 2 ^ 24
    + (upper.limit_low + upper.base_low * 2 ^ 16) * 2 ^ 32

abbrev pub system_limit : GdtEntry → ℕ
system_limit e = e.limit_low + e.granularity % 2 ^ 4 * 2 ^ 16

-- What the processor finds behind a selector.
pub record Segments (tss_base : ℕ) (g : ℕ → GdtEntry) : Type 0 where
  pub null : is_present (g 0) ≡ false
  pub kernel_code : (is_present (g 1) && is_code (g 1) && is_long (g 1)) ≡ true
  pub kernel_code_level : privilege (g 1) ≡ 0
  pub kernel_data : (is_present (g 2) && is_data (g 2)) ≡ true
  pub kernel_data_level : privilege (g 2) ≡ 0
  pub user_code : (is_present (g 3) && is_code (g 3) && is_long (g 3)) ≡ true
  pub user_code_level : privilege (g 3) ≡ 3
  pub user_data : (is_present (g 4) && is_data (g 4)) ≡ true
  pub user_data_level : privilege (g 4) ≡ 3
  pub task_base : system_base (g 5) (g 6) ≡ tss_base
  pub task_limit : system_limit (g 5) + 1 ≡ tss_size

-- After `gdt_init` with the task segment at a 64-bit address, the processor finds a null descriptor,
-- 64-bit code and data for the kernel at level 0 and for users at level 3, and the base and limit of
-- the task segment; `gdt_update_tss_rsp` changes none of them.
pub gdt_init-Segments :
    (tss_base rsp : ℕ) (s : Gdt)
    → tss_base < 2 ^ 64
    → Segments tss_base (gdt_update_tss_rsp rsp (gdt_init tss_base s)).gdt
unfolding gdt_init gdt_set_entry gdt_update_tss_rsp update
gdt_init-Segments tss_base rsp s h = record {
  null = refl;
  kernel_code = refl;
  kernel_code_level = refl;
  kernel_data = refl;
  kernel_data_level = refl;
  user_code = refl;
  user_code_level = refl;
  user_data = refl;
  user_data_level = refl;
  task_base = omega arith;
  task_limit = refl;
}
