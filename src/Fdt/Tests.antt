-- ===== src/Fdt/Tests.antt =====
-- A tree of a root, a bus and a node, whose address 0x20 the bus moves to 0x120.
use rpi5_uefi_build.Common.{
  ℕ, zero, suc, ◌<◌, ◌≡◌, refl, Option, none, some, [], ◌∷◌, get_or, arith, some-eq,
}
use rpi5_uefi_build.Fdt.{
  FdtLib, IsFlattened, Property, Place, at, translated_reg, first_reg, step_up, climb, read_cells,
  match_ranges, cell,
}
use rpi5_uefi_build.Fdt.Ranges.{IsReg}
use rpi5_uefi_build.Fdt.Climb.{Ends, translated_reg-Ends}

abbrev chain_parent : ℕ → Option ℕ
chain_parent zero = none
chain_parent (suc n) = some n

chain_parent-less : (node p : ℕ) → chain_parent node ≡ some p → p < node
chain_parent-less zero p e = absurd (cc)
chain_parent-less (suc n) p e = omega (arith, some-eq e)

-- "ranges" of the bus and "reg" of the node.
abbrev props : ℕ → Option Property
props zero = none
props (suc zero) = some (record {
  len = 12;
  bytes = λ i. get_or (0 ∷ 0 ∷ 0 ∷ 0 ∷ 0 ∷ 0 ∷ 1 ∷ 0 ∷ 0 ∷ 0 ∷ 0 ∷ 0x40 ∷ []) i 0;
})
props (suc (suc n)) =
    some (record { len = 8; bytes = λ i. get_or (0 ∷ 0 ∷ 0 ∷ 0x20 ∷ 0 ∷ 0 ∷ 0 ∷ 4 ∷ []) i 0 })

abbrev pub chain : FdtLib
chain = record {
  path_offset = λ name. none;
  parent_offset = chain_parent;
  get_prop = λ node name. props node;
  address_cells = λ node. some 1;
  size_cells = λ node. some 1;
  compatible = λ name. [];
  offset_by_phandle = λ phandle. none;
  subnodes = λ node. [];
}

chain-IsFlattened : IsFlattened chain
chain-IsFlattened = record { parent_first = chain_parent-less }

moved : translated_reg chain 2 ≡ some (at 0x120, 4)
unfolding translated_reg first_reg climb step_up read_cells match_ranges cell
moved = refl

translated_reg-Ends_example :
    (p : Place) × (bus : ℕ) × (chain.parent_offset 2 ≡ some bus)
    × IsReg chain 2 bus p 4
    × Ends chain p (at 0x120)
translated_reg-Ends_example = translated_reg-Ends chain chain-IsFlattened 2 (at 0x120) 4 moved
