-- ===== src/Rtcan/Socket/RbFrame.antt =====
-- The offsets of the fields of the packed `struct rtcan_rb_frame` (can/rtcan_socket.h).
use rtcan_bb.Base.{ℕ}

abbrev pub can_id_offset : ℕ
can_id_offset = 0

abbrev pub can_ifindex_offset : ℕ
can_ifindex_offset = 4

abbrev pub can_dlc_offset : ℕ
can_dlc_offset = 5

abbrev pub payload_offset : ℕ
payload_offset = 6
