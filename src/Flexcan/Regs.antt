-- ===== src/Flexcan/Regs.antt =====
-- The registers of the FlexCAN, `struct flexcan_regs` of can/rtcan_flexcan.c, by their offsets.
use rtcan_bb.Base.{ℕ}

abbrev pub mcr : ℕ
mcr = 0x00

abbrev pub ctrl : ℕ
ctrl = 0x04

abbrev pub timer : ℕ
timer = 0x08

abbrev pub rxgmask : ℕ
rxgmask = 0x10

abbrev pub rx14mask : ℕ
rx14mask = 0x14

abbrev pub rx15mask : ℕ
rx15mask = 0x18

abbrev pub ecr : ℕ
ecr = 0x1c

abbrev pub esr : ℕ
esr = 0x20

abbrev pub imask1 : ℕ
imask1 = 0x28

abbrev pub iflag1 : ℕ
iflag1 = 0x30

abbrev pub rxfgmask : ℕ
rxfgmask = 0x48
