-- ===== src/Server/Poll/Shifting.antt =====
-- The polls of a scan of the full protocol, from its first bit to its response.
use jtag.Prelude.{
  ℕ, ◌+◌, ◌-◌, ◌<◌, ◌≤◌, ◌≡◌, refl, ap, ◌∙◌, Bool, true, false, List, [], ◌∷◌, Option, length,
  length-set, arith,
}
use jtag.Wire.{Bytes}
use jtag.Server.State.{ScanState, Sf0State, openocd_vpi, Tx, Sf0, TmsSeq, Server, World, on_server}
use jtag.Server.Signals.{Pins, get_pending_signals, update_signals, request_pulse}
use jtag.Server.Scan.{
  capture, request_bit, finish_bits, process_bits, write_bit, continue_scan, continue_scan_in,
}
use jtag.Server.Scan.Engine.{IsAt, clock_bit, clock_bits, clock_bit-Round}
use jtag.Server.Work.{
  flush_tx, sf0_work, tms_work, scan_work, after_scan, continue_vpi_work, queue_scan_response,
}
use jtag.Server.Poll.{poll}

-- A poll, after which the simulation takes what the server asks for, and reports TDO.
unfoldable pub simulated : ℕ → World → Option Pins × World
simulated tdo w =
    let w' = poll w in
    let (pins, g) = get_pending_signals w'.server.signals in
    (
      pins,
      on_server
          (λ s. record s {
            signals = update_signals tdo g.current_tdo_en g.current_idcode g.current_mode g;
          })
          w',
    )

-- Polls in a row, with these TDO values.
unfoldable pub simulated_all : List ℕ → World → List (Option Pins) × World
simulated_all [] w = ([], w)
simulated_all (t ∷ ts) w =
    let (pins, w₁) = simulated t w in let (later, w₂) = simulated_all ts w₁ in (pins ∷ later, w₂)

-- A server that shifts the bits of a scan.
pub record Shifting (s : Server) : Type 0 where
  pub connected : s.connected ≡ true
  pub protocol : s.protocol_mode ≡ openocd_vpi
  pub no_response : s.tx.vpi_tx_pending ≡ false
  pub resting : s.sf0.state ≡ Sf0State.resting
  pub no_sequence : s.tms_seq.active ≡ false
  pub processing : s.scan.state ≡ ScanState.processing

-- What the shifting of bits leaves alone.
pub record Framed (s s' : Server) : Type 0 where
  pub connected : s'.connected ≡ s.connected
  pub protocol : s'.protocol_mode ≡ s.protocol_mode
  pub minimal : s'.vpi_minimal_mode ≡ s.vpi_minimal_mode
  pub msb : s'.msb_first ≡ s.msb_first
  pub rx : s'.rx ≡ s.rx
  pub tx : s'.tx ≡ s.tx
  pub sf0 : s'.sf0 ≡ s.sf0
  pub tms_seq : s'.tms_seq ≡ s.tms_seq
  pub state : s'.scan.state ≡ s.scan.state
  pub num_bytes : s'.scan.num_bytes ≡ s.scan.num_bytes
  pub tms_buf : s'.scan.tms_buf ≡ s.scan.tms_buf
  pub tdi_buf : s'.scan.tdi_buf ≡ s.scan.tdi_buf
  pub tdo_size : length s'.scan.tdo_buf ≡ length s.scan.tdo_buf

pub Framed-trans : {s t u : Server} → Framed s t → Framed t u → Framed s u
Framed-trans a b = record {
  connected = b.connected ∙ a.connected;
  protocol = b.protocol ∙ a.protocol;
  minimal = b.minimal ∙ a.minimal;
  msb = b.msb ∙ a.msb;
  rx = b.rx ∙ a.rx;
  tx = b.tx ∙ a.tx;
  sf0 = b.sf0 ∙ a.sf0;
  tms_seq = b.tms_seq ∙ a.tms_seq;
  state = b.state ∙ a.state;
  num_bytes = b.num_bytes ∙ a.num_bytes;
  tms_buf = b.tms_buf ∙ a.tms_buf;
  tdi_buf = b.tdi_buf ∙ a.tdi_buf;
  tdo_size = b.tdo_size ∙ a.tdo_size;
}

pub length-write_bit :
    (m : Bool) (t i : ℕ) (buf : Bytes) → length (write_bit m t i buf) ≡ length buf
unfolding write_bit
length-write_bit m t i buf = length-set buf _ _

clock_bit-Framed :
    (t k n : ℕ) (s : Server) → k < n → n ≤ 4096 → IsAt k n s → Framed s (clock_bit t s).1
unfolding clock_bit process_bits capture request_bit get_pending_signals update_signals
    request_pulse
clock_bit-Framed t k n s h b a =
    ground (arith, length-write_bit s.msb_first s.signals.current_tdo (k - 1) s.scan.tdo_buf)

-- The poll that asks for a bit.
poll-shifts :
    (k n : ℕ) (w : World)
    → Shifting w.server
    → k < n
    → n ≤ 4096
    → IsAt k n w.server
    → poll w ≡ on_server process_bits w
unfolding poll continue_vpi_work flush_tx sf0_work tms_work scan_work continue_scan continue_scan_in
    after_scan process_bits capture request_bit
poll-shifts k n w q h b a = ground arith

simulated-clock_bit :
    (t : ℕ) (w : World)
    → poll w ≡ on_server process_bits w
    → simulated t w ≡ ((clock_bit t w.server).0, record w { server = (clock_bit t w.server).1 })
unfolding simulated clock_bit
simulated-clock_bit t w e = rw e refl

pub Shifting-Framed : {s s' : Server} → Framed s s' → Shifting s → Shifting s'
Shifting-Framed f q = record {
  connected = f.connected ∙ q.connected;
  protocol = f.protocol ∙ q.protocol;
  no_response = ap (λ (x : Tx). x.vpi_tx_pending) f.tx ∙ q.no_response;
  resting = ap (λ (x : Sf0). x.state) f.sf0 ∙ q.resting;
  no_sequence = ap (λ (x : TmsSeq). x.active) f.tms_seq ∙ q.no_sequence;
  processing = f.state ∙ q.processing;
}

-- As many polls as bits are as many rounds of the engine.
pub record AllShifted (ts : List ℕ) (w : World) : Type 0 where
  pub rounds :
      simulated_all ts w
      ≡ ((clock_bits ts w.server).0, record w { server = (clock_bits ts w.server).1 })
  pub framed : Framed w.server (clock_bits ts w.server).1

-- A server of any protocol for which the next poll shifts the next bit.
pub record Shifts (P : Server → Type 0) : Type 0 where
  pub kept : (s s' : Server) → Framed s s' → P s → P s'
  pub shifts :
      (k n : ℕ) (w : World)
      → P w.server
      → k < n
      → n ≤ 4096
      → IsAt k n w.server
      → poll w ≡ on_server process_bits w

pub all_polled :
    (P : Server → Type 0) (p : Shifts P) (ts : List ℕ) (k n : ℕ) (w : World)
    → P w.server
    → k + length ts ≡ n
    → n ≤ 4096
    → IsAt k n w.server
    → AllShifted ts w
unfolding simulated_all clock_bits
all_polled P p [] k n w q h b a = record {
  rounds = refl;
  framed = record {
    connected = refl;
    protocol = refl;
    minimal = refl;
    msb = refl;
    rx = refl;
    tx = refl;
    sf0 = refl;
    tms_seq = refl;
    state = refl;
    num_bytes = refl;
    tms_buf = refl;
    tdi_buf = refl;
    tdo_size = refl;
  };
}
all_polled P p (t ∷ ts) k n w q h b a =
    let one = simulated-clock_bit t w (p.shifts k n w q (omega arith) b a) in
    let f = clock_bit-Framed t k n w.server (omega arith) b a in
    let at = (clock_bit-Round t k n w.server (omega arith) b a).at in
    let w₁ : World = record w { server = (clock_bit t w.server).1 } in
    let rest = all_polled P p ts (k + 1) n w₁ (p.kept w.server w₁.server f q) (omega arith) b at in
    record { rounds = rw (one, rest.rounds) refl; framed = Framed-trans f rest.framed }

pub all_shifted :
    (ts : List ℕ) (k n : ℕ) (w : World)
    → Shifting w.server
    → k + length ts ≡ n
    → n ≤ 4096
    → IsAt k n w.server
    → AllShifted ts w
all_shifted =
    all_polled Shifting (record { kept = λ s s' f q. Shifting-Framed f q; shifts = poll-shifts })

-- The poll behind the last bit keeps its answer and queues the response.
pub poll-queues :
    (n : ℕ) (w : World)
    → Shifting w.server
    → 0 < n
    → n ≤ 4096
    → IsAt n n w.server
    → w.server.scan.is_legacy ≡ false
    → poll w ≡ on_server (λ s. queue_scan_response (process_bits s)) w
unfolding poll continue_vpi_work flush_tx sf0_work tms_work scan_work continue_scan continue_scan_in
    after_scan process_bits capture finish_bits
poll-queues n w q p b a l = ground arith

-- What that poll leaves alone.
pub process_bits-Framed :
    (n : ℕ) (s : Server)
    → 0 < n
    → n ≤ 4096
    → IsAt n n s
    → Framed s
        (record (process_bits s) { scan = record (process_bits s).scan { state = s.scan.state } })
unfolding process_bits capture finish_bits
process_bits-Framed n s p b a = ground (
  arith,
  length-write_bit s.msb_first s.signals.current_tdo (n - 1) s.scan.tdo_buf,
  length-write_bit s.msb_first s.signals.current_tdo (n - 1)
      (write_bit s.msb_first s.signals.current_tdo (n - 1) s.scan.tdo_buf),
)

pub process_bits-signals : (n : ℕ) (s : Server) → IsAt n n s → (process_bits s).signals ≡ s.signals
unfolding process_bits capture finish_bits
process_bits-signals n s a = ground arith
