-- ===== src/Mscan/Frames/Roundtrip.antt =====
-- A frame that one controller has in its transmit buffer is what another one makes of it that has
-- the same bytes in its receive buffer.
use rtcan_bb.Base.{ℕ, ◌+◌, ◌*◌, ◌/◌, ◌<◌, ◌≡◌, refl, ap, ◌∙◌, true, false, arith}
use rtcan_bb.Rtcan.Abi.{ok, err, eio}
use rtcan_bb.Rtcan.Socket.{Skb}
use rtcan_bb.Rtcan.Device.{Device}
use rtcan_bb.Sja1000.Errors.{has}
use rtcan_bb.Sja1000.Frames.Wire.{Wire, IsWire, frame_of}
use rtcan_bb.Sja1000.Frames.Roundtrip.{IsRead}
use rtcan_bb.Mscan.{mscan_memory, dsr_of, canrxfg, cantxfg, cantflg, cantier, cantbsel}
use rtcan_bb.Mscan.Frames.{
  mscan_rx_interrupt, mscan_start_xmit, mscan_write_frame, mscan_txe0, mscan_txie0,
}
use rtcan_bb.Mscan.Frames.Sent.{IsBuffered, write_frame-IsBuffered}
use rtcan_bb.Mscan.Frames.Received.{mscan_rx-IsRead}

-- A buffer that is copied.
copied-IsBuffered :
    (w : Wire) (bus rx : ℕ → ℕ)
    → ((i : ℕ) → i < 0x20 → rx (canrxfg + i) ≡ bus (cantxfg + i))
    → IsBuffered cantxfg bus w
    → IsBuffered canrxfg rx w
copied-IsBuffered w bus rx same h = record {
  length = same 0x18 (omega arith) ∙ h.length;
  ext = λ e.
      let (a, b, c, d) = h.ext e in
      (
        same 0 (omega arith) ∙ a,
        same 1 (omega arith) ∙ b,
        same 4 (omega arith) ∙ c,
        same 5 (omega arith) ∙ d,
      );
  std = λ e. let (a, b) = h.std e in (same 0 (omega arith) ∙ a, same 1 (omega arith) ∙ b);
  data_bytes = λ e i below. shifted i (ground (arith, below)) ∙ h.data_bytes e i below;
}
  where
    shifted : (i : ℕ) → i < 8 → rx (dsr_of canrxfg i) ≡ bus (dsr_of cantxfg i)
    shifted i below =
        ap rx {y = canrxfg + (8 + (i + i / 2 * 2))} (omega arith)
        ∙ same (8 + (i + i / 2 * 2)) (omega arith)
        ∙ ap bus (omega arith)

-- An accepted frame: the buffer, and the registers that are written around it.
abbrev selected : (ℕ → ℕ) → ℕ → ℕ
selected bus = mscan_memory.out_8 bus cantbsel mscan_txe0

accepted :
    (w : Wire) (bus : ℕ → ℕ)
    → has (bus cantflg) mscan_txe0 ≡ true
    → mscan_start_xmit mscan_memory (frame_of w) bus ≡ (
      ok 0,
      mscan_memory.setbits8
          (mscan_memory.out_8
            (mscan_write_frame mscan_memory (frame_of w) (selected bus))
            cantflg
            mscan_txe0)
          cantier
          mscan_txie0,
    )
unfolding mscan_start_xmit
accepted w bus e = rw e refl

refused :
    (w : Wire) (bus : ℕ → ℕ)
    → has (bus cantflg) mscan_txe0 ≡ false
    → mscan_start_xmit mscan_memory (frame_of w) bus ≡ (err eio, bus)
unfolding mscan_start_xmit
refused w bus e = rw e refl

around :
    (bus : ℕ → ℕ) (i : ℕ)
    → mscan_memory.setbits8
        (mscan_memory.out_8 bus cantflg mscan_txe0)
        cantier
        mscan_txie0
        (cantxfg + i)
      ≡ bus (cantxfg + i)
around bus i = ground arith

-- When the flag register shows the first transmit buffer empty, `rtcan_mscan_start_xmit` accepts any
-- frame the bus can carry: it returns 0, and a controller whose receive buffer then holds the bytes
-- of the transmit buffer reads the same identifier with its flags, the same length code, the same
-- data bytes and the size that belongs to them, for standard and extended frames, with data or
-- remote. When the flag is not set, the call returns -EIO and writes nothing.
pub mscan_xmit-rx_lem :
    (dev : Device) (w : Wire) (bus rx : ℕ → ℕ) (skb : Skb)
    → IsWire w
    → ((i : ℕ)
        → i < 0x20
        → rx (canrxfg + i) ≡ (mscan_start_xmit mscan_memory (frame_of w) bus).1 (cantxfg + i))
    → (has (bus cantflg) mscan_txe0 ≡ true
        → ((mscan_start_xmit mscan_memory (frame_of w) bus).0 ≡ ok 0)
          × IsRead w (mscan_rx_interrupt mscan_memory dev rx skb).0)
      × (has (bus cantflg) mscan_txe0 ≡ false
          → mscan_start_xmit mscan_memory (frame_of w) bus ≡ (err eio, bus))
mscan_xmit-rx_lem dev w bus rx skb v same = (
  λ e. (
    ap (λ r. r.0) (accepted w bus e),
    mscan_rx-IsRead dev w rx skb v (
        copied-IsBuffered w (mscan_write_frame mscan_memory (frame_of w) (selected bus)) rx
          (λ i below.
            same i below
            ∙ ap (λ r. r.1 (cantxfg + i)) (accepted w bus e)
            ∙ around (mscan_write_frame mscan_memory (frame_of w) (selected bus)) i)
          (write_frame-IsBuffered w (selected bus) v)),
  ),
  refused w bus,
)
