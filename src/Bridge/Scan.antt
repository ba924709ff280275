-- ===== src/Bridge/Scan.antt =====
-- The client of vpi/jtag_vpi_advanced.cpp on the server of vpi/jtag_vpi.c: what a scan does to the
-- simulated design.
use jtag.Prelude.{
  Bool, false, ◌||◌, length-set, u8, ◌^◌, ℕ, zero, suc, ◌+◌, ◌*◌, ◌/◌, ◌%◌, ◌≤◌, ◌≡◌, refl, ap, ap₂,
  sym, ◌<◌, ◌∙◌, List, [], ◌∷◌, Option, some, get_or, bit_at, length, ◌==◌, if◌then◌else◌, arith,
}
use jtag.Wire.{Bytes}
use Prim.Native.Nat.{bit_or}
use jtag.Client.{read_outside, store_outside, shift_bits, shift_data, send_tco, jtag_cmd, stored}
use jtag.Client.Collect.{AreBits, collected, bits_of, bits_of-collected, put}
use jtag.Bridge.{
  Simulator, Bridge, tdo, over, process_vpi_command, set_and_pulse, read_signal, write_signal,
  pulse_tck, tck, tms, tdi, resp_image,
}

module _ (v : Simulator) where
  open v use {Design, vpi_get_value, vpi_put_value}

  -- A pulse, as the simulator sees it: TMS and TDI get these levels, then TCK goes to 1 and to 0.
  abbrev pub clocked_once : ℕ → ℕ → Design → Design
  clocked_once m t d =
      vpi_put_value tck 0 (vpi_put_value tck 1 (vpi_put_value tdi t (vpi_put_value tms m d)))

  -- A design that is clocked with these levels of TMS and TDI, and the TDO bits after each pulse.
  unfoldable pub clock_all : List (ℕ × ℕ) → Design → List ℕ × Design
  clock_all [] d = ([], d)
  clock_all ((m, t) ∷ ps) d =
      let d' = clocked_once m t d in
      let (bits, last) = clock_all ps d' in (vpi_get_value tdo d' % 2 ∷ bits, last)

  length-clock_all : (ps : List (ℕ × ℕ)) (d : Design) → length (clock_all ps d).0 ≡ length ps
  unfolding clock_all
  length-clock_all [] d = refl
  length-clock_all ((m, t) ∷ ps) d = ap suc (length-clock_all ps (clocked_once m t d))

  clock_all-AreBits : (ps : List (ℕ × ℕ)) (d : Design) → AreBits (clock_all ps d).0
  unfolding clock_all
  clock_all-AreBits [] d i = omega arith
  clock_all-AreBits ((m, t) ∷ ps) d zero = omega arith
  clock_all-AreBits ((m, t) ∷ ps) d (suc i) = clock_all-AreBits ps (clocked_once m t d) i

-- TMS and TDI of the bits from `i` on: TMS is high in the last only.
abbrev pub scan_levels : Bytes → ℕ → ℕ → List (ℕ × ℕ)
scan_levels bytes i zero = []
scan_levels bytes i (suc n) =
    ((if n == 0 then 1 else 0), bit_at (get_or bytes (i / 8) 0) (i % 8))
    ∷ scan_levels bytes (i + 1) n

length-scan_levels : (bytes : Bytes) (i n : ℕ) → length (scan_levels bytes i n) ≡ n
length-scan_levels bytes i zero = refl
length-scan_levels bytes i (suc n) = ap suc (length-scan_levels bytes (i + 1) n)

length-put : (i t : ℕ) (buf : Bytes) → length (put i t buf) ≡ length buf
length-put i t buf = length-set buf (i / 8) (bit_or (get_or buf (i / 8) 0) (u8 (t * 2 ^ (i % 8))))

module _ (v : Simulator) where
  -- Command 1 with two bits, which client and server both cut to one bit.
  set_and_pulse-clocked_once :
      (m t : ℕ) (d : v.Design)
      → m < 2
      → t < 2
      → set_and_pulse v (m % 2) (t % 2) d ≡ clocked_once v m t d
  unfolding set_and_pulse pulse_tck write_signal
  set_and_pulse-clocked_once m t d p q =
      let bit_m : m % 2 % 2 ≡ m = omega (arith, p) in
      let bit_t : t % 2 % 2 ≡ t = omega (arith, q) in ap₂ (λ x y. clocked_once v x y d) bit_m bit_t

  -- What a scan leaves.
  record Clocked (i : ℕ) (ps : List (ℕ × ℕ)) (buf : Bytes) (b : Bridge v)
      (r : Option (Option Bytes) × Bool × Bridge v) : Type 0 where
    pub result : r.0 ≡ some (some (collected i (clock_all v ps b.design).0 buf))
    pub no_fault : r.1 ≡ false
    pub design : r.2.design ≡ (clock_all v ps b.design).1
    pub overrun : r.2.overrun ≡ b.overrun

  shift_bits-Clocked :
      (bytes : Bytes) (i n : ℕ) (buf : Bytes) (b : Bridge v)
      → i + n ≤ 8 * length bytes
      → i + n ≤ 8 * length buf
      → Clocked i (scan_levels bytes i n) buf b (shift_bits (over v) bytes i n (some buf) b)
  unfolding shift_bits clock_all send_tco jtag_cmd over process_vpi_command resp_image read_signal
      stored
  shift_bits-Clocked bytes i zero buf b g h = record {
    result = refl;
    no_fault = refl;
    design = refl;
    overrun = refl;
  }
  shift_bits-Clocked bytes i (suc n) buf b g h =
      let m : ℕ = if n == 0 then 1 else 0 in
      let t : ℕ = bit_at (get_or bytes (i / 8) 0) (i % 8) in
      let d = set_and_pulse v (m % 2) (t % 2) b.design in
      let ps = scan_levels bytes (i + 1) n in
      let b' : Bridge v = record b {
        design = d;
        resp = record b.resp { response = 1; tdo_val = v.vpi_get_value tdo d % 2 };
      } in
      let rest =
        shift_bits-Clocked bytes (i + 1) n (put i (v.vpi_get_value tdo d % 2) buf) b'
          (omega (arith, g)) (omega (arith, h, length-put i (v.vpi_get_value tdo d % 2) buf)) in
      let read : read_outside bytes i ≡ false = ground (arith, g) in
      let store : store_outside (some buf) i ≡ false = ground (arith, h) in
      let same =
        set_and_pulse-clocked_once m t b.design (ground arith) (unfold bit_at in omega arith) in
      record {
        result =
            rest.result
            ∙ ap
                (λ x. some (
                  some (
                    collected (i + 1) (clock_all v ps x).0
                      (put i (v.vpi_get_value tdo x % 2) buf))))
                same;
        no_fault = ap₂ ◌||◌ (ap₂ ◌||◌ read store) rest.no_fault;
        design = rest.design ∙ ap (λ x. (clock_all v ps x).1) same;
        overrun = rest.overrun;
      }

  -- A scan through the client and the server: `shift_data` of at most as many bits as the data
  -- and the cleared buffer hold clocks the simulated design with TMS and TDI of the scan in order, one rising and
  -- one falling edge of TCK for each bit, TMS high in the last, and nothing else; the buffer then holds TDO after each pulse,
  -- in order, and no read or store has left the data, the buffer or
  -- the answer.
  pub shift_data-clocks :
      (bytes : Bytes) (n : ℕ) (buf : Bytes) (b : Bridge v)
      → ((i : ℕ) → get_or buf i 0 ≡ 0)
      → n ≤ 8 * length bytes
      → n ≤ 8 * length buf
      → let (tdos, d) = clock_all v (scan_levels bytes 0 n) b.design in
        let (r, fault, b') = shift_data (over v) bytes n (some buf) b in
        ((buf' : Bytes) × (r ≡ some (some buf')) × (bits_of buf' 0 n ≡ tdos))
        × (fault ≡ false)
        × (b'.design ≡ d)
        × (b'.overrun ≡ b.overrun)
  unfolding shift_data
  shift_data-clocks bytes n buf b z given h =
      let ps = scan_levels bytes 0 n in
      let tdos = (clock_all v ps b.design).0 in
      let count : length tdos ≡ n = length-clock_all v ps b.design ∙ length-scan_levels bytes 0 n in
      let r = shift_bits-Clocked bytes 0 n buf b (omega (arith, given)) (omega (arith, h)) in
      (
        (
          collected 0 tdos buf,
          r.result,
          ap (bits_of (collected 0 tdos buf) 0) (sym count)
              ∙ bits_of-collected tdos buf (clock_all-AreBits v ps b.design) z (omega arith),
        ),
        r.no_fault,
        r.design,
        r.overrun,
      )
