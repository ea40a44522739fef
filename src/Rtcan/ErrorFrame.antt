-- ===== src/Rtcan/ErrorFrame.antt =====
-- Error frames of the public interface: CAN_ERR_DLC, the classes in the identifier, and their
-- details.
use rtcan_bb.Base.{ℕ, ◌^◌, bit_or}

abbrev pub can_err_dlc : ℕ
can_err_dlc = 8

abbrev pub can_err_lostarb : ℕ
can_err_lostarb = 2 ^ 1

abbrev pub can_err_crtl : ℕ
can_err_crtl = 2 ^ 2

abbrev pub can_err_prot : ℕ
can_err_prot = 2 ^ 3

abbrev pub can_err_busoff : ℕ
can_err_busoff = 2 ^ 6

abbrev pub can_err_buserror : ℕ
can_err_buserror = 2 ^ 7

abbrev pub can_err_crtl_rx_overflow : ℕ
can_err_crtl_rx_overflow = 0x01

abbrev pub can_err_crtl_rx_warning : ℕ
can_err_crtl_rx_warning = 0x04

abbrev pub can_err_crtl_tx_warning : ℕ
can_err_crtl_tx_warning = 0x08

abbrev pub can_err_prot_unspec : ℕ
can_err_prot_unspec = 0

abbrev pub can_err_prot_bit : ℕ
can_err_prot_bit = 0x01

abbrev pub can_err_prot_form : ℕ
can_err_prot_form = 0x02

abbrev pub can_err_prot_stuff : ℕ
can_err_prot_stuff = 0x04

abbrev pub can_err_prot_tx : ℕ
can_err_prot_tx = 0x80

abbrev pub can_err_ack : ℕ
can_err_ack = 2 ^ 5

abbrev pub can_err_crtl_rx_passive : ℕ
can_err_crtl_rx_passive = 0x10

abbrev pub can_err_crtl_tx_passive : ℕ
can_err_crtl_tx_passive = 0x20

abbrev pub can_err_prot_bit0 : ℕ
can_err_prot_bit0 = 0x08

abbrev pub can_err_prot_bit1 : ℕ
can_err_prot_bit1 = 0x10

-- CAN_ERR_PROT_LOC_ACK | CAN_ERR_PROT_LOC_ACK_DEL and CAN_ERR_PROT_LOC_CRC_SEQ |
-- CAN_ERR_PROT_LOC_CRC_DEL
abbrev pub can_err_prot_loc_ack : ℕ
can_err_prot_loc_ack = bit_or 0x19 0x1b

abbrev pub can_err_prot_loc_crc : ℕ
can_err_prot_loc_crc = bit_or 0x08 0x18
