-- ===== src/CCan/Receive/Poll.antt =====
-- A poll of the receive objects: `num_rx_pkts` counts what the stack was given.
use rtcan_bb.Base.{
  ℕ, zero, suc, ◌+◌, ◌-◌, ◌%◌, ◌^◌, ◌≤◌, ◌≡◌, bit_and, Bool, true, false, not, refl, subst, ap, ◌∙◌,
  arith, ◌==◌, if◌then◌else◌,
}
use rtcan_bb.Rtcan.Socket.{Config, Skb}
use rtcan_bb.Rtcan.Device.{Device}
use rtcan_bb.Receive.{rcv}
use rtcan_bb.CCan.{CPort, msgctrl_reg, c_can_read_reg32, c_can_intpnd1_reg}
use rtcan_bb.CCan.Receive.{
  Service, on_chip, Polled, pass_on, c_can_handle_lost_msg_obj, take_message, poll_object, poll_one,
  poll_from, c_can_do_rx_poll, if_mcont_eob, if_mcont_msglst, if_mcont_newdat,
}
use rtcan_bb.CCan.Objects.{c_can_object_get, if_comm_rx}

-- The frames that the device has counted, of both kinds, in 32 bits.
abbrev pub counted : Device → ℕ
counted dev = (dev.rx_count + dev.err_count) % 2 ^ 32

-- `k` frames more.
abbrev pub IsCounted : Device → Device → ℕ → Type 0
IsCounted dev dev' k = counted dev' ≡ (counted dev + k) % 2 ^ 32

module _ {B : Type 0} (port : CPort B) (now : B → ℕ × B) (cfg : Config) where
  lost-IsCounted :
      (objno : ℕ) (stack : Skb) (h : Service B)
      → IsCounted h.chip.dev (c_can_handle_lost_msg_obj port now cfg 0 objno stack h).chip.dev 1
  unfolding c_can_handle_lost_msg_obj pass_on rcv
  lost-IsCounted objno stack h = ground arith

  taken-IsCounted :
      (ctrl msg_obj : ℕ) (p : Polled B)
      → IsCounted p.service.chip.dev (take_message port now cfg ctrl msg_obj p).service.chip.dev 1
  unfolding take_message pass_on rcv
  taken-IsCounted ctrl msg_obj p = ground arith

  -- Part of a poll: `k` frames were passed on and counted, on at most `n` objects.
  pub record IsPoll (n : ℕ) (p p' : Polled B) : Type 0 where
    pub passed : ℕ
    pub bounded : passed ≤ n
    pub number : p'.num_rx_pkts ≡ p.num_rx_pkts + passed
    pub device : IsCounted p.service.chip.dev p'.service.chip.dev passed

  unchanged :
      (p p' : Polled B)
      → p'.num_rx_pkts ≡ p.num_rx_pkts
      → p'.service.chip.dev ≡ p.service.chip.dev
      → IsPoll 1 p p'
  unchanged p p' e e' = record {
    passed = 0;
    bounded = omega arith;
    number = omega (arith, e);
    device = ap counted e' ∙ omega arith;
  }

  IsPoll-if :
      (c : Bool) (p : Polled B) (r r' : Bool × Polled B)
      → IsPoll 1 p r.1
      → IsPoll 1 p r'.1
      → IsPoll 1 p (if c then r else r').1
  IsPoll-if true p r r' i i' = i
  IsPoll-if false p r r' i i' = i'

  poll_object-IsPoll :
      (lost : ℕ → Skb) (msg_obj : ℕ) (p : Polled B)
      → IsPoll 1 p (poll_object port now cfg lost msg_obj p).1
  unfolding poll_object take_message
  poll_object-IsPoll lost msg_obj p =
      IsPoll-if (not (bit_and ctrl if_mcont_eob == 0)) p _ _ (unchanged p _ refl refl) (
        IsPoll-if (not (bit_and ctrl if_mcont_msglst == 0)) p _ _
          (record {
            passed = 1;
            bounded = omega arith;
            number = refl;
            device = lost-IsCounted msg_obj (lost msg_obj) read.service;
          })
          (IsPoll-if (bit_and ctrl if_mcont_newdat == 0) p _ _ (unchanged p _ refl refl) (record {
            passed = 1;
            bounded = omega arith;
            number = refl;
            device = taken-IsCounted ctrl msg_obj read;
          })))
    where
      got : Service B
      got = on_chip p.service (c_can_object_get port 0 msg_obj if_comm_rx)

      read : Polled B
      read = record p {
        service = on_chip got (λ _. (port.read_reg got.chip.bus (msgctrl_reg 0)).1);
      }

      ctrl : ℕ
      ctrl =
          (port.read_reg (c_can_object_get port 0 msg_obj if_comm_rx p.service.chip.bus)
            (msgctrl_reg 0)).0

  joined : (n : ℕ) (p p1 p2 : Polled B) → IsPoll 1 p p1 → IsPoll n p1 p2 → IsPoll (suc n) p p2
  joined n p p1 p2 i j = record {
    passed = i.passed + j.passed;
    bounded = omega (arith, i.bounded, j.bounded);
    number = omega (arith, i.number, j.number);
    device = omega (arith, i.device, j.device);
  }

  poll_one-IsPoll :
      (lost : ℕ → Skb) (msg_obj val : ℕ) (p : Polled B)
      → IsPoll 1 p (poll_one port now cfg lost msg_obj val p).1
  unfolding poll_one
  poll_one-IsPoll lost msg_obj val p =
      IsPoll-if (bit_and val (2 ^ (msg_obj - 1)) == 0) p _ _ (unchanged p p refl refl)
        (poll_object-IsPoll lost msg_obj p)

  -- The loop returns, or goes on after the chip has been read.
  returned_or :
      (done : Bool) (n : ℕ) (p p1 p2 : Polled B) (bus : B)
      → IsPoll 1 p p1
      → IsPoll n (record p1 { service = on_chip p1.service (λ _. bus) }) p2
      → IsPoll (suc n) p (elim done [ true ↦ p1 | false ↦ p2 ])
  returned_or true n p p1 p2 bus i j = record {
    passed = i.passed;
    bounded = omega (arith, i.bounded);
    number = i.number;
    device = i.device;
  }
  returned_or false n p p1 p2 bus i j =
      joined n p p1 p2 i
        (record { passed = j.passed; bounded = j.bounded; number = j.number; device = j.device })

  poll_from-IsPoll :
      (lost : ℕ → Skb) (msg_obj n val : ℕ) (p : Polled B)
      → IsPoll n p (poll_from port now cfg lost msg_obj n val p)
  unfolding poll_from
  poll_from-IsPoll lost msg_obj zero val p = record {
    passed = 0;
    bounded = omega arith;
    number = omega arith;
    device = omega arith;
  }
  poll_from-IsPoll lost msg_obj (suc n) val p =
      let p' = (poll_one port now cfg lost msg_obj val p).1 in
      let pending = c_can_read_reg32 port c_can_intpnd1_reg p'.service.chip.bus in
      returned_or (poll_one port now cfg lost msg_obj val p).0 n p p' _ pending.1
        (poll_one-IsPoll lost msg_obj val p)
        (poll_from-IsPoll lost (suc msg_obj) n pending.0
          (record p' { service = on_chip p'.service (λ _. pending.1) }))

  from_start :
      (n : ℕ) (p p' : Polled B)
      → p.num_rx_pkts ≡ 0
      → IsPoll n p p'
      → (p'.num_rx_pkts ≤ n) × IsCounted p.service.chip.dev p'.service.chip.dev p'.num_rx_pkts
  from_start n p p' e i =
      let number : i.passed ≡ p'.num_rx_pkts = omega (arith, i.number, e) in
      (
        omega (arith, i.bounded, number),
        subst (λ (k : ℕ). IsCounted p.service.chip.dev p'.service.chip.dev k) number i.device,
      )

  -- A poll passes at most sixteen frames on, a message or the error frame for a lost one; it reports
  -- their number, and the device has counted that many frames more, up to a multiple of 2^32.
  pub c_can_do_rx_poll_lem :
      (lost : ℕ → Skb) (stack : Skb) (h : Service B)
      → let p = c_can_do_rx_poll port now cfg lost stack h in
        (p.num_rx_pkts ≤ 16) × IsCounted h.chip.dev p.service.chip.dev p.num_rx_pkts
  unfolding c_can_do_rx_poll
  c_can_do_rx_poll_lem lost stack h = from_start 16 begun _ refl whole
    where
      pending : ℕ × B
      pending = c_can_read_reg32 port c_can_intpnd1_reg h.chip.bus

      begun : Polled B
      begun = record { service = on_chip h (λ _. pending.1); skb = stack; num_rx_pkts = 0 }

      whole : IsPoll 16 begun (poll_from port now cfg lost 1 16 pending.0 begun)
      whole = poll_from-IsPoll lost 1 16 pending.0 begun
