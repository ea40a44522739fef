-- ===== src/Flexcan/Probe.antt =====
-- Registering a controller: `register_flexcandev`, `unregister_flexcandev`, `flexcan_probe` and
-- `flexcan_remove` of can/rtcan_flexcan.c.
pub mod Outcome
pub mod Removal
use rtcan_bb.Base.{
  ℕ, ◌+◌, ◌*◌, ◌^◌, bit_and, bit_or, Bool, true, false, not, ◌&&◌, ◌||◌, Option, none, some, List,
  [], ◌∷◌, ◌==◌, if◌then◌else◌, ◌⊎◌, inl, inr, ◌>>=◌,
}
use rtcan_bb.Rtcan.Abi.{Errno, enodev, ebusy, enomem, CanState, Ret, ok, err}
use rtcan_bb.Rtcan.Socket.{Config}
use rtcan_bb.Rtcan.Device.{Device, Devices, std}
use rtcan_bb.Registry.{no_bit_time, dev_alloc, dev_register, dev_unregister}
use rtcan_bb.Sja1000.Errors.{has}
use rtcan_bb.Flexcan.Regs
use rtcan_bb.Flexcan.{
  FlexcanPort, Flexcan, bit, flexcan_read, flexcan_change, flexcan_chip_enable,
  flexcan_chip_disable, flexcan_clk_enable, flexcan_clk_disable,
}
use rtcan_bb.Flexcan.Timing.{flexcan_bittiming_const}
use rtcan_bb.Flexcan.Modes.{flexcan_mcr_fen, flexcan_mcr_halt, flexcan_mode_stop}

abbrev pub flexcan_ctrl_clk_src : ℕ
flexcan_ctrl_clk_src = bit 13

-- FLEXCAN_MCR_FRZ | FLEXCAN_MCR_HALT | FLEXCAN_MCR_FEN | FLEXCAN_MCR_SUPV
abbrev pub flexcan_mcr_register : ℕ
flexcan_mcr_register = bit 30 + bit 28 + bit 29 + bit 23

-- DEV_NAME, `rtcan%d`.
abbrev pub flexcan_dev_name : List ℕ
flexcan_dev_name = 114 ∷ 116 ∷ 99 ∷ 97 ∷ 110 ∷ 37 ∷ 100 ∷ []

-- What the kernel tells about a device: the result of selecting the pins, the features of the entry
-- of `flexcan_of_match` that fits, those that the entry of `flexcan_id_table` names, the clock
-- frequency of the device tree, 0 for none, the rate of the clock, the memory, the interrupt, 0 for
-- none, and whether the memory region, its mapping and memory for the device can be had.
pub record Platform : Type 0 where
  pub pins : Option Errno
  pub of_match : Option ℕ
  pub id_entry : Option ℕ
  pub clock_frequency : ℕ
  pub clk : Errno ⊎ ℕ
  pub mem : Bool
  pub irq : ℕ
  pub region_free : Bool
  pub mapped : Bool
  pub memory : Bool

-- What a probe or a removal leaves: the table, the device with its chip while it is allocated, and
-- the clock, the memory region and the mapping that are still held.
pub record Probed (B : Type 0) : Type 0 where
  pub code : Ret
  pub devices : Devices
  pub device : Option (Flexcan B)
  pub clk_held : Bool
  pub region_held : Bool
  pub is_mapped : Bool

-- The features of the core. Only an entry of the table of names is taken.
unfoldable pub flexcan_devtype : (of_match id_entry : Option ℕ) → Option ℕ
flexcan_devtype (some features) id_entry = none
flexcan_devtype none id_entry = id_entry

-- The labels at the end of `flexcan_probe`.
module _ {B : Type 0} where
  abbrev pub out_error : Devices → Errno → Probed B
  out_error devs e = record {
    code = err e;
    devices = devs;
    device = none;
    clk_held = false;
    region_held = false;
    is_mapped = false;
  }

  abbrev pub out_get : Probed B → Probed B
  out_get r = record r { clk_held = false }

  abbrev pub out_map : Probed B → Probed B
  out_map r = out_get (record r { region_held = false })

  abbrev pub out_alloc : Probed B → Probed B
  out_alloc r = out_map (record r { is_mapped = false })

  abbrev pub out_register : Probed B → Probed B
  out_register r = out_alloc (record r { device = none })

module _ {B : Type 0} (port : FlexcanPort B) where
  -- The set-up of the chip in `register_flexcandev`.
  unfoldable pub flexcan_select_clock : Flexcan B → Flexcan B
  flexcan_select_clock st =
      let disabled = flexcan_chip_disable port (flexcan_clk_enable st) in
      let clocked =
        flexcan_change port (λ reg. bit_or reg flexcan_ctrl_clk_src) Regs.ctrl disabled in
      flexcan_change port (λ reg. bit_or reg flexcan_mcr_register) Regs.mcr
        (flexcan_chip_enable port clocked)

  -- The label `out_chip_disable`.
  abbrev pub out_chip_disable : Flexcan B → Flexcan B
  out_chip_disable st = flexcan_clk_disable (flexcan_chip_disable port st)

  unfoldable pub flexcan_enrolled : Flexcan B → Ret × Devices × Device → Ret × Devices × Flexcan B
  flexcan_enrolled st (ok n, devs, dev) = (ok 0, devs, record st { dev = dev })
  flexcan_enrolled st (err e, devs, dev) = (err e, devs, out_chip_disable (record st { dev = dev }))

  -- `unregister_flexcandev`, for a device of the table; what it returns is not looked at. `polls` are
  -- the reference counts that the wait for its users reads, and `none` is a wait that has not ended.
  unfoldable pub unregister_flexcandev : Devices → List ℕ → Flexcan B → Option (Devices × Flexcan B)
  unregister_flexcandev devs polls st =
      let stopped = flexcan_mode_stop port st in
      dev_unregister devs stopped.dev polls >>= λ r. some (r.1, stopped)

  -- `flexcan_remove`: it returns 0. The device is freed with what is left in it.
  unfoldable pub flexcan_remove : Devices → List ℕ → Flexcan B → Option (Probed B × Flexcan B)
  unfolding unregister_flexcandev
  flexcan_remove devs polls st = unregister_flexcandev devs polls st >>= λ r. some (
    record {
      code = ok 0;
      devices = r.0;
      device = none;
      clk_held = false;
      region_held = false;
      is_mapped = false;
    },
    r.1,
  )

  module _ (snprintf : List ℕ → ℕ → List ℕ) (cfg : Config) where
    -- `register_flexcandev`
    unfoldable pub register_flexcandev : Devices → Flexcan B → Ret × Devices × Flexcan B
    unfolding flexcan_select_clock flexcan_enrolled
    register_flexcandev devs st =
        let (reg, st') = flexcan_read port (flexcan_select_clock st) Regs.mcr in
        if has reg flexcan_mcr_fen
        then flexcan_enrolled st' (dev_register snprintf cfg devs st'.dev)
        else (err enodev, devs, out_chip_disable st')

    -- The device that a probe fills in.
    abbrev pub flexcan_fill : (features clock_freq : ℕ) → B → Device → Flexcan B
    flexcan_fill features clock_freq bus dev = record {
      bus = bus;
      dev = record dev {
        name = flexcan_dev_name;
        can_sys_clock = clock_freq;
        bittiming_const = some flexcan_bittiming_const;
        state = CanState.stopped;
      };
      bit_time = std no_bit_time;
      reg_ctrl_default = 0;
      features = features;
      clocks = 0;
      irq_held = false;
    }

    -- What follows the registration.
    unfoldable pub flexcan_probed : Bool → Ret × Devices × Flexcan B → Probed B
    flexcan_probed clk_held (ok n, devs, st) = record {
      code = ok 0;
      devices = devs;
      device = some st;
      clk_held = clk_held;
      region_held = true;
      is_mapped = true;
    }
    flexcan_probed clk_held (err e, devs, st) = out_register (record {
      code = err e;
      devices = devs;
      device = some st;
      clk_held = clk_held;
      region_held = true;
      is_mapped = true;
    })

    -- The part from the memory on, for a clock that is known.
    unfoldable pub flexcan_acquire :
        Platform → (features clock_freq : ℕ) → (clk_held : Bool) → Devices → B → Probed B
    unfolding register_flexcandev flexcan_probed
    flexcan_acquire p features clock_freq clk_held devs bus =
        let held = record (out_error devs enodev) { clk_held = clk_held } in
        let claimed = record held { code = err enomem; region_held = true } in
        if not p.mem || p.irq == 0
        then out_get held
        else (if not p.region_free
            then out_get (record held { code = err ebusy })
            else (if not p.mapped then out_map claimed else elim (dev_alloc cfg p.memory) [
              | none ↦ out_alloc (record claimed { is_mapped = true })
              | some dev ↦
                  flexcan_probed clk_held
                    (register_flexcandev devs (flexcan_fill features clock_freq bus dev))
            ]))

    -- The clock.
    unfoldable pub flexcan_get_clock : Platform → (features : ℕ) → Devices → B → Probed B
    unfolding flexcan_acquire
    flexcan_get_clock p features devs bus =
        if p.clock_frequency == 0
        then (elim p.clk [
          | inl e ↦ out_error devs e
          | inr rate ↦ flexcan_acquire p features rate true devs bus
        ])
        else flexcan_acquire p features p.clock_frequency false devs bus

    -- `flexcan_probe`
    unfoldable pub flexcan_probe : Platform → Devices → B → Probed B
    unfolding flexcan_devtype flexcan_get_clock
    flexcan_probe p devs bus = elim p.pins [
      | some e ↦ out_error devs e
      | none ↦ elim (flexcan_devtype p.of_match p.id_entry) [
        | none ↦ out_error devs enodev
        | some features ↦ flexcan_get_clock p features devs bus
      ]
    ]
