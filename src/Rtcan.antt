-- ===== src/Rtcan.antt =====
-- The data of the RT-Socket-CAN stack: can/rtcan_socket.h, can/rtcan_list.h and can/rtcan_dev.h,
-- with the constants of the public header rtdm/rtcan.h that the sources name (the socket CAN
-- interface fixes their values).
pub mod Abi
pub mod ErrorFrame
pub mod Socket
pub mod Device
