-- ===== src/CCan/Probe.antt =====
-- `register_c_candev`, `c_can_plat_probe` and `c_can_plat_remove` of rtcan_c_can.c.
pub mod Outcome
use rtcan_bb.Base.{
  ℕ, ◌*◌, ◌^◌, Bool, true, false, not, ◌||◌, Option, none, some, List, ◌==◌, if◌then◌else◌, ◌>>=◌,
}
use rtcan_bb.Rtcan.Abi.{Errno, einval, enodev, enomem, CanState, Ret, ok, err}
use rtcan_bb.Rtcan.Socket.{Config}
use rtcan_bb.Rtcan.Device.{Device, Devices}
use rtcan_bb.Registry.{no_bit_time, dev_alloc, dev_register}
use rtcan_bb.Virt.{rtcan_dev_name}
use rtcan_bb.CCan.{CPort, CCan}
use rtcan_bb.CCan.Bittiming.{c_can_bittiming_const}
use rtcan_bb.CCan.Platform.{Mmio, reg_map_c_can, reg_map_d_can, c_can_hw_raminit, plat_port}
use rtcan_bb.CCan.Power.{unregister_c_candev}

-- What the kernel tells about a device: the type in its entry of the table, `none` when the device
-- tree has a node that fits none; the rate of its clock, `none` for no clock; the memory and whether
-- its registers are 32 bits apart; the interrupt, 0 for none; whether the memory region, its mapping
-- (at an address) and memory for the device can be had; the register for the initialisation of the
-- memory, `none` for no mapping, and the number of the device. The number is unsigned, so the test
-- for a negative one never holds.
pub record CPlatform : Type 0 where
  pub driver_data : Option ℕ
  pub clk : Option ℕ
  pub mem : Bool
  pub is_32bit : Bool
  pub irq : ℕ
  pub region_free : Bool
  pub mapping : Option ℕ
  pub memory : Bool
  pub raminit_ctrlreg : Option ℕ
  pub instance_number : ℕ

-- What a probe leaves: the table, the device with its access functions, and what is still held.
pub record CProbed (B : Type 0) : Type 0 where
  pub code : Ret
  pub devices : Devices
  pub device : Option (CPort B × CCan B)
  pub allocated : Bool
  pub runtime_enabled : Bool
  pub clk_held : Bool
  pub region_held : Bool
  pub is_mapped : Bool

-- BOSCH_C_CAN and BOSCH_D_CAN
abbrev pub bosch_c_can : ℕ
bosch_c_can = 1

abbrev pub bosch_d_can : ℕ
bosch_d_can = 2

-- The labels at the end of `c_can_plat_probe`; none of them frees the device.
module _ {B : Type 0} where
  abbrev pub exit : Devices → Errno → CProbed B
  exit devs e = record {
    code = err e;
    devices = devs;
    device = none;
    allocated = false;
    runtime_enabled = false;
    clk_held = false;
    region_held = false;
    is_mapped = false;
  }

  abbrev pub exit_free_clk : CProbed B → CProbed B
  exit_free_clk r = record r { clk_held = false }

  abbrev pub exit_release_mem : CProbed B → CProbed B
  exit_release_mem r = exit_free_clk (record r { region_held = false })

  abbrev pub exit_iounmap : CProbed B → CProbed B
  exit_iounmap r = exit_release_mem (record r { is_mapped = false })

  abbrev pub exit_free_device : CProbed B → CProbed B
  exit_free_device r = exit_iounmap (record r { device = none })

module _ {B : Type 0} (mmio : Mmio B) (runtime : Bool → B → B) where
  -- The switch over the type of the device: its access functions, `none` for an unknown type.
  unfoldable pub c_can_select : CPlatform → (base type_number : ℕ) → Option (CPort B)
  c_can_select p base type_number =
      let raminit = p.raminit_ctrlreg >>= λ reg.
      some (c_can_hw_raminit mmio base reg_map_d_can reg p.instance_number) in
      if type_number == bosch_c_can
      then some
          (plat_port mmio base reg_map_c_can (if p.is_32bit then 2 else 1) none (some runtime))
      else (if type_number == bosch_d_can
          then some (plat_port mmio base reg_map_d_can 1 raminit (some runtime))
          else none)

  -- The device that a probe fills in.
  abbrev pub c_can_fill : (rate : ℕ) → B → Device → CCan B
  c_can_fill rate bus dev = record {
    bus = bus;
    dev = record dev {
      name = rtcan_dev_name;
      can_sys_clock = rate;
      bittiming_const = some c_can_bittiming_const;
      state = CanState.stopped;
    };
    bit_time = no_bit_time;
    last_status = 0;
    tx_next = 0;
    tx_echo = 0;
    irq_requested = false;
  }

  module _ (snprintf : List ℕ → ℕ → List ℕ) (cfg : Config) where
    -- `register_c_candev`: whether the power management stays enabled, too.
    unfoldable pub register_c_candev : Devices → Device → Ret × Devices × Device × Bool
    register_c_candev devs dev =
        let (ret, devs', dev') = dev_register snprintf cfg devs dev in
        elim ret [ ok n ↦ (ok 0, devs', dev', true) | err e ↦ (err e, devs', dev', false) ]

    -- What follows the registration.
    unfoldable pub c_can_probed : CPort B → CCan B → Ret × Devices × Device × Bool → CProbed B
    c_can_probed port st (ok n, devs, dev, enabled) = record {
      code = ok 0;
      devices = devs;
      device = some (port, record st { dev = dev });
      allocated = true;
      runtime_enabled = enabled;
      clk_held = true;
      region_held = true;
      is_mapped = true;
    }
    c_can_probed port st (err e, devs, dev, enabled) = exit_free_device (record {
      code = err e;
      devices = devs;
      device = some (port, record st { dev = dev });
      allocated = true;
      runtime_enabled = enabled;
      clk_held = true;
      region_held = true;
      is_mapped = true;
    })

    -- The part from the type of the device on.
    unfoldable pub c_can_set_up :
        CPlatform → (base type_number rate : ℕ) → Devices → B → Device → CProbed B
    unfolding register_c_candev c_can_probed
    c_can_set_up p base type_number rate devs bus dev = elim (c_can_select p base type_number) [
      | none ↦ exit_free_device (record (exit devs einval) {
        allocated = true;
        clk_held = true;
        region_held = true;
        is_mapped = true;
      })
      | some port ↦
          let st = c_can_fill rate bus dev in c_can_probed port st (register_c_candev devs st.dev)
    ]

    -- The part from the memory on, for a clock that is known.
    unfoldable pub c_can_acquire : CPlatform → (type_number rate : ℕ) → Devices → B → CProbed B
    unfolding c_can_set_up
    c_can_acquire p type_number rate devs bus =
        let held = record (exit devs enodev) { clk_held = true } in
        let claimed = record held { code = err enomem; region_held = true } in
        if not p.mem || p.irq == 0 || not p.region_free
        then exit_free_clk held
        else elim p.mapping [
          | none ↦ exit_release_mem claimed
          | some base ↦ elim (dev_alloc cfg p.memory) [
            | none ↦ exit_iounmap (record claimed { is_mapped = true })
            | some dev ↦ c_can_set_up p base type_number rate devs bus dev
          ]
        ]

    -- `c_can_plat_probe`
    unfoldable pub c_can_plat_probe : CPlatform → Devices → B → CProbed B
    unfolding c_can_acquire
    c_can_plat_probe p devs bus = elim p.driver_data [
      | none ↦ exit devs einval
      | some type_number ↦ elim p.clk [
        | none ↦ exit devs enodev
        | some rate ↦ c_can_acquire p type_number rate devs bus
      ]
    ]

-- `c_can_plat_remove`: it returns 0. The second part is the device as it is freed.
unfoldable pub c_can_plat_remove :
    {B : Type 0} → CPort B → Devices → List ℕ → CCan B → Option (CProbed B × CCan B)
unfolding unregister_c_candev
c_can_plat_remove port devs polls st = unregister_c_candev port devs polls st >>= λ r.
    some (record (exit r.0 enodev) { code = ok 0; runtime_enabled = true }, r.1)
