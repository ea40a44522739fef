-- ===== src/CCan/Platform.antt =====
-- The platform part of rtcan_c_can.c: the maps of the registers, and the functions that access
-- them. The accesses to memory of the kernel are parameters.
use rtcan_bb.Base.{
  ℕ, zero, suc, ◌+◌, ◌-◌, ◌*◌, ◌^◌, bit_and, bit_or, Bool, Option, List, [], ◌∷◌, if◌then◌else◌,
}
use rtcan_bb.CCan.{CPort}

-- `readw`, `writew`, `readl` and `writel` at an address.
pub record Mmio (B : Type 0) : Type 0 where
  pub readw : B → ℕ → ℕ × B
  pub writew : B → ℕ → ℕ → B
  pub readl : B → ℕ → ℕ × B
  pub writel : B → ℕ → ℕ → B

-- The offsets, in the order of `enum reg`; 0 where the array leaves a register out.
abbrev pub reg_map_c_can : List ℕ
reg_map_c_can =
    0x00 ∷ 0 ∷ 0x02 ∷ 0x04 ∷ 0x06 ∷ 0x08 ∷ 0x0A ∷ 0x0C ∷ 0x10 ∷ 0x12 ∷ 0x14 ∷ 0x16 ∷ 0x18 ∷ 0x1A
    ∷ 0x1C ∷ 0x1E ∷ 0x20 ∷ 0x22 ∷ 0x24 ∷ 0x40 ∷ 0x42 ∷ 0x44 ∷ 0x46 ∷ 0x48 ∷ 0x4A ∷ 0x4C ∷ 0x4E
    ∷ 0x50 ∷ 0x52 ∷ 0x54 ∷ 0x80 ∷ 0x82 ∷ 0x90 ∷ 0x92 ∷ 0xA0 ∷ 0xA2 ∷ 0xB0 ∷ 0xB2 ∷ []

abbrev pub reg_map_d_can : List ℕ
reg_map_d_can =
    0x00 ∷ 0x02 ∷ 0x04 ∷ 0x08 ∷ 0x0C ∷ 0x10 ∷ 0x14 ∷ 0x0E ∷ 0x100 ∷ 0x102 ∷ 0x104 ∷ 0x106 ∷ 0x108
    ∷ 0x10A ∷ 0x10C ∷ 0x110 ∷ 0x112 ∷ 0x114 ∷ 0x116 ∷ 0x120 ∷ 0x122 ∷ 0x124 ∷ 0x126 ∷ 0x128 ∷ 0x12A
    ∷ 0x12C ∷ 0x130 ∷ 0x132 ∷ 0x134 ∷ 0x136 ∷ 0x88 ∷ 0x8A ∷ 0x9C ∷ 0x9E ∷ 0xB0 ∷ 0xB2 ∷ 0xC4 ∷ 0xC6
    ∷ []

-- `regs[index]`, for an index of the enumeration.
abbrev pub offset_at : List ℕ → ℕ → ℕ
offset_at [] index = 0
offset_at (offset ∷ regs) zero = offset
offset_at (offset ∷ regs) (suc index) = offset_at regs index

module _ {B : Type 0} (mmio : Mmio B) (base : ℕ) (regs : List ℕ) where
  -- `c_can_plat_read_reg_aligned_to_16bit` and the three others; `stride` is 1 or 2.
  unfoldable pub plat_read_reg : ℕ → B → ℕ → ℕ × B
  plat_read_reg stride bus index = mmio.readw bus (base + stride * offset_at regs index)

  unfoldable pub plat_write_reg : ℕ → B → ℕ → ℕ → B
  plat_write_reg stride bus index val = mmio.writew bus (base + stride * offset_at regs index) val

  -- `c_can_hw_raminit`
  unfoldable pub c_can_hw_raminit : (raminit_ctrlreg instance_number : ℕ) → Bool → B → B
  c_can_hw_raminit raminit_ctrlreg instance_number enable bus =
      let (val, bus') = mmio.readl bus raminit_ctrlreg in
      mmio.writel bus' raminit_ctrlreg (
        if enable
        then bit_or val (2 ^ instance_number)
        else bit_and val (2 ^ 32 - 1 - 2 ^ instance_number))

  -- The functions that `c_can_plat_probe` gives a device.
  abbrev pub plat_port : ℕ → Option (Bool → B → B) → Option (Bool → B → B) → CPort B
  plat_port stride raminit runtime = record {
    read_reg = plat_read_reg stride;
    write_reg = plat_write_reg stride;
    raminit = raminit;
    runtime = runtime;
  }
