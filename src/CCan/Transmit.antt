-- ===== src/CCan/Transmit.antt =====
-- `c_can_start_xmit` and `c_can_do_tx` of rtcan_c_can.c.
pub mod Outstanding
use rtcan_bb.Base.{
  ℕ, zero, suc, ◌+◌, ◌-◌, ◌%◌, ◌^◌, bit_and, Bool, true, false, not, ◌||◌, Option, none, some, ◌==◌,
  if◌then◌else◌, ◌>>=◌,
}
use rtcan_bb.Rtcan.Abi.{CanFrame}
use rtcan_bb.Rtcan.Socket.{sem_up}
use rtcan_bb.BitTiming.{sub32}
use rtcan_bb.CCan.{CPort, CCan, c_can_msg_obj_tx_first, c_can_txrqst1_reg, c_can_read_reg32}
use rtcan_bb.CCan.Objects.{c_can_write_msg_object, c_can_inval_msg_object}
use rtcan_bb.CCan.Modes.{c_can_sem}

-- `get_tx_next_msg_obj` and `get_tx_echo_msg_obj`
abbrev pub get_tx_next_msg_obj : {B : Type 0} → CCan B → ℕ
get_tx_next_msg_obj st = bit_and st.tx_next 15 + c_can_msg_obj_tx_first

abbrev pub get_tx_echo_msg_obj : {B : Type 0} → CCan B → ℕ
get_tx_echo_msg_obj st = bit_and st.tx_echo 15 + c_can_msg_obj_tx_first

module _ {B : Type 0} (port : CPort B) where
  -- `c_can_start_xmit`: it returns 0.
  unfoldable pub c_can_start_xmit : CCan B → CanFrame → CCan B
  c_can_start_xmit st frame = record st {
    bus = c_can_write_msg_object port 0 frame (get_tx_next_msg_obj st) st.bus;
    tx_next = (st.tx_next + 1) % 2 ^ 32;
  }

  -- Whether a transmission is requested still, as the chip is read.
  abbrev pub read_pending : ℕ → B → Bool × B
  read_pending msg_obj_no bus =
      let (val, bus') = c_can_read_reg32 port c_can_txrqst1_reg bus in
      (not (bit_and val (2 ^ (msg_obj_no - 1)) == 0), bus')

  -- The loop of `c_can_do_tx`, with `n` tests of its condition allowed.
  unfoldable pub echo_sent : ℕ → CCan B → Option (CCan B)
  echo_sent zero st = none
  echo_sent (suc n) st =
      let msg_obj_no = get_tx_echo_msg_obj st in
      let (pending, bus) = read_pending msg_obj_no st.bus in
      elim (sub32 st.tx_next st.tx_echo == 0) [
        | true ↦ some st
        | false ↦ elim pending [
          | true ↦ some (c_can_sem (record st { bus = bus }) sem_up)
          | false ↦ echo_sent n (record st {
            bus = c_can_inval_msg_object port 0 msg_obj_no bus;
            tx_echo = (st.tx_echo + 1) % 2 ^ 32;
          })
        ]
      ]

  -- The end of `c_can_do_tx`.
  abbrev pub restart_queue : CCan B → CCan B
  restart_queue st =
      if not (bit_and st.tx_next 15 == 0) || bit_and st.tx_echo 15 == 0
      then c_can_sem st sem_up
      else st

  -- `c_can_do_tx`
  unfoldable pub c_can_do_tx : ℕ → CCan B → Option (CCan B)
  unfolding echo_sent
  c_can_do_tx n st = echo_sent n st >>= λ st'. some (restart_queue st')
