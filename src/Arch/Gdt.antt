-- ===== src/Arch/Gdt.antt =====
-- kernel/src/arch/x86_64/gdt.c. The table is a function from indices to descriptors, and the address
-- of the task segment a parameter. The load of the table and task registers is not modelled.
pub mod Decode
mod Tests
use ded_os.Base.{ℕ, ◌+◌, ◌-◌, ◌*◌, ◌/◌, ◌%◌, ◌^◌}
use ded_os.Base.Memory.{update}

pub record GdtEntry : Type 0 where
  pub limit_low : ℕ
  pub base_low : ℕ
  pub base_mid : ℕ
  pub access : ℕ
  pub granularity : ℕ
  pub base_high : ℕ

-- `struct tss_entry`, of which the kernel uses one field, and its packed size.
pub record Tss : Type 0 where
  pub rsp0 : ℕ

abbrev pub tss_size : ℕ
tss_size = 104

pub record Gdt : Type 0 where
  pub gdt : ℕ → GdtEntry
  pub tss : Tss

-- The bits of `gdt_bits_t`; no two of them overlap in a sum below.
abbrev pub gdt_present : ℕ
gdt_present = 0x80

abbrev pub gdt_kernel : ℕ
gdt_kernel = 0x00

abbrev pub gdt_user : ℕ
gdt_user = 0x60

abbrev pub gdt_code : ℕ
gdt_code = 0x10 + 0x08

abbrev pub gdt_data : ℕ
gdt_data = 0x10 + 0x02

abbrev pub gdt_granularity : ℕ
gdt_granularity = 0x80

abbrev pub gdt_longmode : ℕ
gdt_longmode = 0x20

abbrev pub flat : ℕ → ℕ → GdtEntry
flat access granularity = record {
  limit_low = 0xFFFF;
  base_low = 0;
  base_mid = 0;
  access = access;
  granularity = granularity;
  base_high = 0;
}

unfoldable pub gdt_set_entry : ℕ → ℕ → ℕ → Gdt → Gdt
gdt_set_entry i access granularity s = record s { gdt = update s.gdt i (flat access granularity) }

-- The two entries of the task segment: the second holds the upper half of the base in its first
-- four bytes, and zeros.
abbrev pub tss_lower : ℕ → ℕ → GdtEntry
tss_lower base limit = record {
  limit_low = limit % 2 ^ 16;
  base_low = base % 2 ^ 16;
  base_mid = base / 2 ^ 16 % 2 ^ 8;
  access = 0x89;
  granularity = limit / 2 ^ 16 % 2 ^ 4;
  base_high = base / 2 ^ 24 % 2 ^ 8;
}

abbrev pub tss_upper : ℕ → GdtEntry
tss_upper base = record {
  limit_low = base / 2 ^ 32 % 2 ^ 16;
  base_low = base / 2 ^ 48 % 2 ^ 16;
  base_mid = 0;
  access = 0;
  granularity = 0;
  base_high = 0;
}

unfoldable pub gdt_init : ℕ → Gdt → Gdt
gdt_init tss_base s =
    let s1 = gdt_set_entry 0 0x00 0x00 s in
    let s2 =
      gdt_set_entry 1 (gdt_present + gdt_kernel + gdt_code) (gdt_granularity + gdt_longmode) s1 in
    let s3 = gdt_set_entry 2 (gdt_present + gdt_kernel + gdt_data) 0x00 s2 in
    let s4 =
      gdt_set_entry 3 (gdt_present + gdt_user + gdt_code) (gdt_granularity + gdt_longmode) s3 in
    let s5 = gdt_set_entry 4 (gdt_present + gdt_user + gdt_data) 0x00 s4 in
    record s5 {
      gdt = update (update s5.gdt 5 (tss_lower tss_base (tss_size - 1))) 6 (tss_upper tss_base);
    }

unfoldable pub gdt_update_tss_rsp : ℕ → Gdt → Gdt
gdt_update_tss_rsp rsp s = record s { tss = record s.tss { rsp0 = rsp } }
