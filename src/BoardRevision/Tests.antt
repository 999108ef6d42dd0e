-- ===== src/BoardRevision/Tests.antt =====
-- The revision codes of a few boards.
use rpi5_uefi_build.Common.{◌≡◌, ◌≢◌, inl, refl, arith, none, some}
use rpi5_uefi_build.BoardRevision.{
  switch, get_model_family, get_model_name, get_fdt_name, get_memory_size, rpi5_fdt_name,
  variant_from_revision,
}
use rpi5_uefi_build.BoardRevision.Tables.{get_fdt_name-get_model_family}

-- A Pi 5 B of revision 1.1 with 8 GiB.
pi5_rev_1_1 :
    (get_model_name 0xd0_4171 ≡ "Raspberry Pi 5 Model B")
    × (get_fdt_name 0xd0_4171 variant_from_revision ≡ some "bcm2712-d-rpi-5-b.dtb")
    × (get_memory_size 0xd0_4171 ≡ 0x2_0000_0000)
unfolding get_model_name get_fdt_name get_memory_size switch rpi5_fdt_name
pi5_rev_1_1 = (refl, refl, refl)

get_fdt_name-get_model_family_example : get_fdt_name 0xd0_4171 variant_from_revision ≢ none
unfolding get_model_family switch
get_fdt_name-get_model_family_example =
    (get_fdt_name-get_model_family 0xd0_4171 variant_from_revision refl).1
      (inl (λ e. absurd (omega arith)))
