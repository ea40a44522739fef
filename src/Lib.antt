-- ===== src/Lib.antt =====
-- RT-Socket-CAN: sockets for CAN controllers in a real-time kernel. This library models the core
-- of the stack, everything between the calls of a user and the functions of a driver, and five
-- drivers: the one of virtual devices and those of the SJA1000, of the C_CAN and D_CAN, of the
-- MSCAN and of the FlexCAN.
--
-- The parts, and the files that model them:
--   Base         helpers: tests on numbers, bits of numbers, bytes in memory, partial results
--   Rtcan        the data: values of the public interface (Rtcan/Abi), error frames
--                (Rtcan/ErrorFrame), `struct rtcan_socket` and
--                `struct rtcan_skb` of can/rtcan_socket.h (Rtcan/Socket), `struct rtcan_device` and
--                `struct rtcan_recv` of can/rtcan_dev.h and can/rtcan_list.h (Rtcan/Device)
--   Ring         `rtcan_rcv_deliver` and MEMCPY_FROM_RING_BUF of can/rtcan_raw.c: the ring buffer
--                of a socket; Ring/Bytewise sees it as a queue of bytes, Ring/Fifo as one of messages
--   Registry     the table of devices, can/rtcan_dev.c
--   Filter       the reception lists of the devices, can/rtcan_raw_filter.c; Filter/Accept on what a
--                filter accepts, Filter/Entries on one device, Filter/Loops on all of them
--   System       the shared state, and what is outside it
--   Receive      `rtcan_rcv`, `rtcan_tx_push`, `rtcan_loopback` of can/rtcan_raw.c
--   Raw          `rtcan_raw_socket`, `_bind`, `_unbind`, `_close` of can/rtcan_raw.c, with
--                can/rtcan_socket.c; Raw/Options is `rtcan_raw_setsockopt`, Raw/Recvmsg and
--                Raw/Sendmsg are the two calls of these names; Raw/Bind is on bindings
--   BitTiming    `can_update_spt` and `rtcan_calc_bit_time` of can/rtcan_raw_dev.c
--   Ioctl        the requests of can/rtcan_raw_dev.c, and `rtcan_raw_ioctl` of can/rtcan_raw.c
--   Virt         the driver of virtual devices, can/rtcan_virt.c; Virt/Start is on the start and the
--                end of the module
--   Sja1000      the driver of the SJA1000, can/sja1000/rtcan_sja1000.c: Sja1000/Frames is
--                `rtcan_sja_start_xmit` and `rtcan_sja_rx_interrupt`, Sja1000/Errors
--                `rtcan_sja_err_interrupt`, Sja1000/Modes the changes of mode, Sja1000/Timing
--                `rtcan_sja_set_bit_time`, Sja1000/Interrupt `rtcan_sja_interrupt`, Sja1000/Probe
--                the registration; Sja1000/Senders is on the semaphore of the senders and on
--                sequences of calls and interrupts
--   CCan         the driver of the C_CAN and D_CAN, rtcan_c_can.c: CCan/Objects the message objects,
--                CCan/Transmit `c_can_start_xmit` and `c_can_do_tx`, CCan/Receive
--                `c_can_do_rx_poll`, CCan/Errors the error states, CCan/Interrupt
--                `c_can_interrupt`, CCan/Modes the changes of mode, CCan/Bittiming
--                `c_can_set_bittiming`, CCan/Platform the access functions, CCan/Power
--                `c_can_power_down` and `c_can_power_up`, CCan/Probe `c_can_plat_probe` and
--                `c_can_plat_remove`; CCan/Senders is on the
--                semaphore of the senders
--   Mscan        the driver of the MSCAN, can/mscan/rtcan_mscan.c and rtcan_mscan_regs.h:
--                Mscan/Frames is `rtcan_mscan_start_xmit` and `rtcan_mscan_rx_interrupt`,
--                Mscan/Errors `rtcan_mscan_err_interrupt`, Mscan/Modes the changes of mode,
--                Mscan/Timing `rtcan_mscan_set_bit_time`, Mscan/Interrupt
--                `rtcan_mscan_interrupt`, Mscan/Probe the registration; Mscan/Senders is on the
--                semaphore of the senders and on sequences of calls and interrupts
--   Flexcan      the driver of the FlexCAN, can/rtcan_flexcan.c: Flexcan/Regs the registers,
--                Flexcan/Frames `flexcan_start_xmit` and `flexcan_rx_interrupt`, Flexcan/Errors
--                `flexcan_err_interrupt`, Flexcan/Modes the changes of mode, Flexcan/Timing
--                `flexcan_set_bit_time`, Flexcan/Interrupt `flexcan_interrupt`, Flexcan/Probe
--                `flexcan_probe` and `flexcan_remove`; Flexcan/Steps is on sequences of calls and
--                interrupts
--   Tests        concrete devices and sockets at which theorems are applied
--
-- How they interact: a driver hands a frame to `rcv`, which offers it to each entry of the device's
-- reception list; an entry that accepts it writes it into the ring buffer of its socket, from which
-- `raw_recvmsg` reads it. `raw_bind`, `raw_setsockopt` and `raw_close` move the entries of a socket
-- between the two lists of each device. `raw_sendmsg` and the requests look a device up and call
-- its driver.
--
-- How the code is represented. A function of the source is a function on the state that it changes;
-- it runs under the locks of the stack, so it is one step. Where a driver lets go of the lock while
-- it waits, what happens meanwhile is a parameter. The result `none` is a fault in the kernel, a
-- NULL pointer followed or a division by zero, a write behind the array `rtcan_virt_devs`, or a
-- loop whose bound has run out. The chains `recv_list` and `empty_list` are lists, sockets and
-- tasks are numbers, arrays are functions of an index. An `int` index is its 32-bit pattern,
-- counters wrap at 2^32, and the memory is little- endian. Semaphores belong to RTDM: the model
-- keeps the calls made on them, and what a wait answers is a parameter; so are the registers of a
-- chip (`Port`, `CPort`, `MscanPort`, `FlexcanPort`, on a state of the hardware of any type), the
-- clock, `snprintf`, the allocator's answer, the answer of `rtdm_irq_request`, the answers of the
-- platform at a probe (`Platform`, `CPlatform`), the accesses to user memory (`Caller`) and, for
-- the calls of the stack, the functions of a driver (`DeviceOps`). The memory of a local `skb` is a
-- parameter too. Constants and types of the public interface are those that it documents. Loopback,
-- bus errors and reference counts are configured.
--
-- Bounds and fuel: most loops run over lists, over as many indices as the table has, over the
-- message objects, over a number of polls that the source fixes, or over the search for time
-- quanta, and need no fuel. Four loops take a bound: that of `rtcan_sja_interrupt`, which ends when
-- the chip reports no interrupt; that of `c_can_do_tx`, for which more tests than frames are
-- outstanding are enough; the wait of `rtcan_mscan_mode_start`, for which more tests than the chip
-- rests are enough; and the receive loop of `flexcan_interrupt`, which takes as many rounds as the
-- chip shows frames. The wait for references in `rtcan_dev_unregister` runs over the counts that it
-- reads, and the waits for power run over the reads that the time allows. The size of a ring buffer
-- is any power of two, and the numbers of devices and of entries are any (`Config`).
--
-- Not modelled: the boards of the SJA1000 and its proc files (can/sja1000, without
-- rtcan_sja1000.c), the platforms and the proc file of the MSCAN (can/mscan, without
-- rtcan_mscan.c), the entry points of modules, the proc files and the
-- module (can/rtcan_module.c), all of them calls of the kernel or accesses to registers; the older
-- calculation of bit timings.
pub mod Base
pub mod Rtcan
pub mod Ring
pub mod Registry
pub mod Filter
pub mod System
pub mod Receive
pub mod Raw
pub mod BitTiming
pub mod Ioctl
pub mod Mscan
pub mod Flexcan
pub mod Virt
pub mod Sja1000
pub mod CCan
pub mod Tests
