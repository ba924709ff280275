-- ===== src/Server/Packet/FullScan.antt =====
-- A scan of the full protocol, from its packet to its response.
use jtag.Prelude.{
  ℕ, zero, suc, ◌+◌, ◌-◌, ◌/◌, ◌%◌, ◌<◌, ◌≤◌, ◌≡◌, refl, sym, ap, ap₂, ◌∙◌, true, false, List, [],
  ◌∷◌, Option, some, length, get_or, set, get_or-set_self, get_or-set_ne, length-set, replicate,
  length-replicate, length-blit, blit, take, take_all, min, get_or-blit-take, raise_bit,
  raise_bit_lem, bit_at, ◌==◌, ◌&&◌, if◌then◌else◌, arith, map,
}
use jtag.Wire.{Bytes, zeros, of_image, buffer_size}
use jtag.Server.State.{ScanState, Server}
use jtag.Server.Signals.{Pins}
use jtag.Server.Scan.{read_bit, bit_pos, bytes_of_bits, process_bits}
use jtag.Server.Scan.Engine.{
  IsAt, shift_list, shift_pins, clock_bits, bits_from, level, scan_shifts_all,
}
use jtag.Server.Scan.Buffers.{AreBytes}
use jtag.Server.Packet.{flip_tms, start_full_scan}

get_or-replicate : (n i : ℕ) → get_or {A = ℕ} (replicate n 0) i 0 ≡ 0
get_or-replicate zero i = refl
get_or-replicate (suc n) zero = refl
get_or-replicate (suc n) (suc i) = get_or-replicate n i

pub get_or-zeros : (n i : ℕ) → get_or (zeros n) i 0 ≡ 0
unfolding zeros
get_or-zeros n i = get_or-replicate n i

pub length-zeros : (n : ℕ) → length (zeros n) ≡ n
unfolding zeros
length-zeros n = length-replicate n 0

-- The TMS buffer after its `memset`.
get_or-cleared :
    (buf : Bytes) (m i : ℕ) → i < m → m ≤ length buf → get_or (blit buf 0 (zeros m)) i 0 ≡ 0
get_or-cleared buf m i h l =
    ap (λ (x : Bytes). get_or (blit buf 0 x) i 0)
      (sym (take_all m (zeros m) (omega (arith, length-zeros m))))
    ∙ get_or-blit-take buf (zeros m) m i 0 h (omega arith) (omega (arith, length-zeros m))
    ∙ get_or-zeros m i

bit_at-zero : (p : ℕ) → p < 8 → bit_at 0 p ≡ 0
unfolding bit_at
bit_at-zero zero h = refl
bit_at-zero (suc zero) h = refl
bit_at-zero (suc (suc zero)) h = refl
bit_at-zero (suc (suc (suc zero))) h = refl
bit_at-zero (suc (suc (suc (suc zero)))) h = refl
bit_at-zero (suc (suc (suc (suc (suc zero))))) h = refl
bit_at-zero (suc (suc (suc (suc (suc (suc zero)))))) h = refl
bit_at-zero (suc (suc (suc (suc (suc (suc (suc zero))))))) h = refl
bit_at-zero (suc (suc (suc (suc (suc (suc (suc (suc p)))))))) h = absurd (omega arith)

pub length-flip_tms : (c n : ℕ) (buf : Bytes) → length (flip_tms c n buf) ≡ length buf
unfolding flip_tms
length-flip_tms c n buf =
    ground
      (arith, length-set buf ((n - 1) / 8) (raise_bit (get_or buf ((n - 1) / 8) 0) ((n - 1) % 8)))

-- Bit `p` of byte `k` of the TMS buffer of a scan: high at the last bit of a scan that flips TMS.
flip_bit :
    (c n : ℕ) (buf : Bytes) (k p : ℕ)
    → 0 < n
    → k ≤ (n - 1) / 8
    → (n - 1) / 8 < length buf
    → p < 8
    → ((i : ℕ) → i ≤ (n - 1) / 8 → get_or buf i 0 ≡ 0)
    → bit_at (get_or (flip_tms c n buf) k 0) p
      ≡ (if c == 3 && ((n - 1) / 8 == k && (n - 1) % 8 == p) then 1 else 0)
unfolding flip_tms
flip_bit c n buf k p h b l q z =
    let last = (n - 1) / 8 in
    let byte = raise_bit (get_or buf last 0) ((n - 1) % 8) in
    ground (
      arith,
      z k b,
      z last (omega arith),
      bit_at-zero p q,
      get_or-set_self buf last byte 0 l,
      get_or-set_ne buf last k byte 0,
      ap (λ x. get_or (set buf last byte) x 0) {x = last} {y = k},
      (raise_bit_lem ((n - 1) % 8) p 0 (omega arith) q (omega arith)).1,
    )

module _ (c n : ℕ) (s : Server) (pos : 0 < n) (fits : n ≤ 4096) where
  abbrev out : Bytes
  out = (of_image s.rx.vpi_cmd_rx).buffer_out

  abbrev cleared : Bytes
  cleared = blit s.scan.tms_buf 0 (zeros (min (bytes_of_bits n) buffer_size))

  tms_bit :
      (k p : ℕ)
      → k < n
      → p < 8
      → length s.scan.tms_buf ≡ buffer_size
      → bit_at (get_or (flip_tms c n cleared) (k / 8) 0) p
        ≡ (if c == 3 && ((n - 1) / 8 == k / 8 && (n - 1) % 8 == p) then 1 else 0)
  tms_bit k p h q l =
      let m = min (bytes_of_bits n) buffer_size in
      flip_bit c n cleared (k / 8) p pos (omega arith)
        (omega (arith, length-blit s.scan.tms_buf 0 (zeros m))) q
        (λ i b. get_or-cleared s.scan.tms_buf m i (omega arith) (omega arith))

  tdi_byte :
      (k : ℕ)
      → k < n
      → length s.scan.tdi_buf ≡ buffer_size
      → length out ≡ buffer_size
      → get_or (blit s.scan.tdi_buf 0 (take (bytes_of_bits n) out)) (k / 8) 0 ≡ get_or out (k / 8) 0
  tdi_byte k h l o =
      get_or-blit-take s.scan.tdi_buf out (bytes_of_bits n) (k / 8) 0 (omega arith) (omega arith)
        (omega arith)

-- The pins of a scan, least significant bits first: TMS high at the last bit alone, and there only
-- for CMD_SCAN_CHAIN_FLIP_TMS; TDI the bits of the packet.
abbrev pub scan_pins : ℕ → ℕ → Bytes → ℕ → ℕ → Pins
scan_pins c n buf mode k = record {
  tms = if c == 3 && (k == n - 1) then 1 else 0;
  tdi = bit_at (get_or buf (k / 8) 0) (k % 8);
  mode_sel = mode;
  tck_pulse = true;
  tckc_toggle = false;
}

abbrev pub scan_list : ℕ → ℕ → Bytes → ℕ → ℕ → List ℕ → List (Option Pins)
scan_list c n buf mode k [] = []
scan_list c n buf mode k (t ∷ ts) =
    some (scan_pins c n buf mode k) ∷ scan_list c n buf mode (k + 1) ts

-- A server whose scan buffers have their sizes, and that has nothing pending.
pub record IsReady (s : Server) : Type 0 where
  pub tms_size : length s.scan.tms_buf ≡ buffer_size
  pub tdi_size : length s.scan.tdi_buf ≡ buffer_size
  pub out_size : length (of_image s.rx.vpi_cmd_rx).buffer_out ≡ buffer_size
  pub no_pulse : s.signals.pending_tck_pulse ≡ false
  pub no_reset : s.signals.reset_pulses_remaining ≡ 0
  pub no_toggle : s.signals.pending_tckc_toggle ≡ false
  pub no_fault : s.fault ≡ false

shift_pins-start :
    (c n k : ℕ) (s : Server)
    → 0 < n
    → n ≤ 4096
    → k < n
    → s.msb_first ≡ false
    → IsReady s
    → shift_pins (start_full_scan c n s) k
      ≡ scan_pins c n (of_image s.rx.vpi_cmd_rx).buffer_out s.signals.pending_mode_select k
unfolding start_full_scan read_bit bit_pos
shift_pins-start c n k s p b h m r = ground (
  arith,
  tms_bit c n s p b k (k % 8) h (omega arith) r.tms_size,
  tdi_byte c n s p b k h r.tdi_size r.out_size,
)

pub shift_list-start :
    (c n k : ℕ) (ts : List ℕ) (s : Server)
    → 0 < n
    → n ≤ 4096
    → k + length ts ≤ n
    → s.msb_first ≡ false
    → IsReady s
    → shift_list (start_full_scan c n s) k ts
      ≡ scan_list c n (of_image s.rx.vpi_cmd_rx).buffer_out s.signals.pending_mode_select k ts
shift_list-start c n k [] s p b h m r = refl
shift_list-start c n k (t ∷ ts) s p b h m r =
    ap₂ ◌∷◌ (ap some (shift_pins-start c n k s p b (omega arith) m r))
      (shift_list-start c n (k + 1) ts s p b (omega arith) m r)

pub start-IsAt : (c n : ℕ) (s : Server) → n ≤ 4096 → IsReady s → IsAt 0 n (start_full_scan c n s)
unfolding start_full_scan
start-IsAt c n s b r = ground arith

tdo-start : (c n : ℕ) (s : Server) → (start_full_scan c n s).scan.tdo_buf ≡ zeros buffer_size
unfolding start_full_scan
tdo-start c n s = refl

pub tdo-AreBytes : (c n : ℕ) (s : Server) → AreBytes (start_full_scan c n s).scan.tdo_buf
tdo-AreBytes c n s i = omega (arith, ap (λ x. get_or x i 0) (tdo-start c n s), get_or-zeros 512 i)

pub tdo-size : (c n : ℕ) (s : Server) → length (start_full_scan c n s).scan.tdo_buf ≡ 512
tdo-size c n s = ap length (tdo-start c n s) ∙ length-zeros 512

pub legacy-start : (c n : ℕ) (s : Server) → (start_full_scan c n s).scan.is_legacy ≡ false
unfolding start_full_scan
legacy-start c n s = refl

pub msb-start : (c n : ℕ) (s : Server) → (start_full_scan c n s).msb_first ≡ s.msb_first
unfolding start_full_scan
msb-start c n s = refl

pub record Scanned (c : ℕ) (ts : List ℕ) (s : Server) : Type 0 where
  pub pins :
      (clock_bits ts (start_full_scan c (length ts) s)).0
      ≡ scan_list c
          (length ts)
          (of_image s.rx.vpi_cmd_rx).buffer_out
          s.signals.pending_mode_select
          0
          ts
  pub state :
      (process_bits (clock_bits ts (start_full_scan c (length ts) s)).1).scan.state ≡ ScanState.idle
  pub answers :
      bits_from false
        (process_bits (clock_bits ts (start_full_scan c (length ts) s)).1).scan.tdo_buf
        0
        (length ts)
      ≡ map level ts

-- CMD_SCAN_CHAIN (2) and CMD_SCAN_CHAIN_FLIP_TMS (3) of 1 to 4096 bits, least significant bit
-- first, with nothing pending: one pulse for each bit, TDI the bits of `buffer_out` in order, TMS
-- low but for the last bit of command 3; after as many rounds as bits the engine rests, and the
-- bits of the TDO buffer are the TDO values that came back, in order.
pub full_scan_lem :
    (c t : ℕ) (ts : List ℕ) (s : Server)
    → length (t ∷ ts) ≤ 4096
    → s.msb_first ≡ false
    → IsReady s
    → Scanned c (t ∷ ts) s
full_scan_lem c t ts s b m r =
    let n = length (t ∷ ts) in
    let s₀ = start_full_scan c n s in
    let all =
      scan_shifts_all t ts s₀ (start-IsAt c n s b r) b (tdo-AreBytes c n s) (tdo-size c n s) in
    record {
      pins = all.pins ∙ shift_list-start c n 0 (t ∷ ts) s (omega arith) b (omega arith) m r;
      state =
          all.state
          ∙ ap (λ x. if x then ScanState.sending_tdo else ScanState.idle) (legacy-start c n s);
      answers =
          ap (λ x. bits_from x (process_bits (clock_bits (t ∷ ts) s₀).1).scan.tdo_buf 0 n)
            (sym (msb-start c n s ∙ m))
          ∙ all.answers;
    }

-- With the most significant bits first, the last bit of a scan that should flip TMS goes out with
-- TMS low: the bit is set as if the least significant went first.
pub msb_flip_lost :
    (n : ℕ) (s : Server)
    → 0 < n
    → n ≤ 4096
    → s.msb_first ≡ true
    → length s.scan.tms_buf ≡ buffer_size
    → (shift_pins (start_full_scan 3 n s) (n - 1)).tms ≡ 0
unfolding start_full_scan read_bit bit_pos
msb_flip_lost n s p b m l =
    ground (arith, tms_bit 3 n s p b (n - 1) (7 - (n - 1) % 8) (omega arith) (omega arith) l)
