-- ===== src/Arch/Gdt/Tests.antt =====
-- A task segment in the upper half.
use ded_os.Base.{arith}
use ded_os.Arch.Gdt.{Gdt, flat, gdt_init, gdt_update_tss_rsp}
use ded_os.Arch.Gdt.Decode.{Segments, gdt_init-Segments}

abbrev empty : Gdt
empty = record { gdt = λ i. flat 0 0; tss = record { rsp0 = 0 } }

gdt_init-Segments_example :
    Segments 0xffffffff80004000 (gdt_update_tss_rsp 4096 (gdt_init 0xffffffff80004000 empty)).gdt
gdt_init-Segments_example = gdt_init-Segments 0xffffffff80004000 4096 empty (omega arith)
