-- ===== src/Tests/Binding.antt =====
-- The theorems on bindings and filters at concrete devices.
use rtcan_bb.Base.{
  ℕ, zero, suc, ◌≡◌, refl, sym, subst, true, false, not, none, some, [], ◌∷◌, arith, inl, inr, ◌⊎◌,
}
use rtcan_bb.Rtcan.Socket.{list}
use rtcan_bb.Rtcan.Device.{Device}
use rtcan_bb.System.{SockaddrCan}
use rtcan_bb.Registry.{get_by_index, reference}
use rtcan_bb.Filter.{check_filter, mount_filter, accept_msg, remove_filter}
use rtcan_bb.Filter.Accept.{inverted, accept_inverted}
use rtcan_bb.Filter.Entries.{IsWellFormed, All, IsNotOf, HasRun}
use rtcan_bb.Raw.{raw_bind, raw_close}
use rtcan_bb.Raw.Options.{set_flist}
use rtcan_bb.Raw.Bind.{AllWellFormed, IsRegistered, covers}
use rtcan_bb.Raw.Bind.Rebind.{Replaced, replace_total}
use rtcan_bb.Raw.Bind.Outcome.{IsSound, BindReturns, ListReturns, raw_bind_total, set_flist_total}
use rtcan_bb.Raw.Bind.Closing.{Closed, raw_close_total}
use rtcan_bb.Raw.Bind.Late.{remove_filter_late}
use rtcan_bb.Virt.{Loading, virt_init}
use rtcan_bb.Virt.Start.{IsWithdrawn, Unloaded, virt_init_outcome}
use rtcan_bb.Registry.{drained}
use rtcan_bb.Rtcan.Abi.{ok, Ret}
use rtcan_bb.Base.{◌⊎◌, length, List, ◌+◌}
use rtcan_bb.Tests.{
  config, filter, entry_of, bound_socket, used_device, free_device, one_device, system,
}

the_device : (d dev : Device) (j : ℕ) → one_device d j ≡ some dev → dev ≡ d
the_device d dev zero e = cc e
the_device d dev (suc j) e = absurd (ground arith)

all_well : AllWellFormed config (one_device used_device)
all_well j dev e =
    subst (IsWellFormed config) (sym (the_device used_device dev j e))
      (record { counted = refl; total = refl })

abbrev used_run : HasRun 3 1 used_device.recv_list
used_run = record {
  before = [];
  mine = entry_of 3 ∷ [];
  after = [];
  parts = refl;
  size = refl;
  before_other = tt;
  mine_own = (refl, tt);
  after_other = tt;
}

no_other :
    (dev : Device) (j : ℕ)
    → one_device used_device j ≡ some dev
    → (covers config 1 j ≡ false) ⊎ (◌≡◌ {A = ℕ} 1 0)
    → All (IsNotOf 3) dev.recv_list
no_other dev zero e (inl c) = absurd (ground arith)
no_other dev (suc j) e (inl c) = absurd (ground arith)
no_other dev j e (inr c) = absurd (omega arith)

registered : IsRegistered config (one_device used_device) 3 1 1
registered = record {
  runs = λ j dev e c pos.
      subst (λ (d : Device). HasRun 3 1 d.recv_list) (sym (the_device used_device dev j e))
        used_run;
  others = λ j dev e c. no_other dev j e c;
}

sound : IsSound config 3 system
sound = record { well = all_well; registered = registered; proper = tt }

abbrev everywhere : SockaddrCan
everywhere = record { is_af_can = true; can_ifindex = 0 }

raw_bind_total_example : BindReturns config system 3 0 none (raw_bind config system 3 everywhere)
unfolding check_filter get_by_index reference
raw_bind_total_example = raw_bind_total config system 3 sound everywhere

set_flist_total_example :
    ListReturns config system 3
      (list (filter ∷ filter ∷ []))
      none
      (set_flist config system 3 (list (filter ∷ filter ∷ [])))
unfolding check_filter get_by_index reference
set_flist_total_example =
    set_flist_total config system 3 sound (list (filter ∷ filter ∷ [])) (omega arith)

raw_close_total_example : Closed config system 3 (raw_close config system 3)
raw_close_total_example = raw_close_total config system 3 sound

replace_total_example :
    Replaced config
      (one_device used_device)
      3
      bound_socket
      0
      all_well
      registered
      (list (filter ∷ []))
unfolding check_filter get_by_index reference
replace_total_example =
    replace_total config (one_device used_device) 3 bound_socket 0 all_well registered
      (list (filter ∷ [])) (omega arith) refl

remove_filter_late_example : remove_filter config (one_device free_device) 3 bound_socket ≡ none
remove_filter_late_example =
    remove_filter_late config (one_device free_device) 3 bound_socket 0 free_device (omega arith)
      refl refl tt

accept_inverted_example :
    accept_msg 0x124 (mount_filter (inverted filter)) ≡ not (accept_msg 0x124 (mount_filter filter))
accept_inverted_example = accept_inverted 0x124 filter (omega arith) (omega arith)

abbrev print_name : List ℕ → ℕ → List ℕ
print_name mask i = b'r' ∷ (b'0' + i) ∷ []

-- Two virtual devices are made and given back.
abbrev before : Loading
before = record { devices = one_device used_device; made = []; allocated = 1 }

all_gone : (i : ℕ) → drained (0 ∷ []) ≡ true
unfolding drained
all_gone i = refl

virt_init_outcome_example :
    (r : Ret × Loading) × (virt_init print_name config (λ i. 0 ∷ []) (true ∷ true ∷ []) before
      ≡ some r)
    × (((r.0 ≡ ok 0)
          × (length r.1.made ≡ 2)
          × Unloaded print_name config (λ i. 0 ∷ []) all_gone before r)
        ⊎ IsWithdrawn before r)
virt_init_outcome_example =
    virt_init_outcome print_name config (λ i. 0 ∷ []) all_gone (true ∷ true ∷ [])
      (one_device used_device) 1 (omega arith)
