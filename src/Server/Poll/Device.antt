-- ===== src/Server/Poll/Device.antt =====
-- A device that a simulation drives with what the server asks for: one scan and one OScan1 exchange
-- with it.
use jtag.Prelude.{
  ℕ, zero, suc, ◌+◌, ◌≡◌, refl, sym, ap, ap₂, ◌∙◌, List, [], ◌∷◌, Option, none, some, length, arith,
}
use jtag.Wire.{Bytes, OcdVpiCmd, image, le32_to_host, vpi_pkt_size}
use jtag.Wire.Layout.{IsSized}
use jtag.Server.State.{World}
use jtag.Server.Signals.{Pins}
use jtag.Server.Packet.FullScan.{scan_list, scan_pins}
use jtag.Server.Work.Oscan1.{offered, taken, edge}
use jtag.Server.Work.Transmit.{taking}
use jtag.Server.Poll.{poll}
use jtag.Server.Poll.Clients.{polls}
use jtag.Server.Poll.Shifting.{simulated, simulated_all}
use jtag.Server.Poll.Between.{Between, arrives}
use jtag.Server.Poll.Requests.{AsksScan}
use jtag.Server.Poll.Scanning.{serve_scan, serve_scan-Served}
use jtag.Server.Poll.Edges.{answering, control_bit, serve_oscan1, serve_oscan1-ServedEdges}

-- The pulses of `m` bits of a scan from bit `k` on.
abbrev pub scan_pulses : ℕ → ℕ → Bytes → ℕ → ℕ → ℕ → List (Option Pins)
scan_pulses c n buf mode k zero = []
scan_pulses c n buf mode k (suc m) =
    some (scan_pins c n buf mode k) ∷ scan_pulses c n buf mode (k + 1) m

pub scan_list-length :
    (c n : ℕ) (buf : Bytes) (mode k : ℕ) (ts : List ℕ)
    → scan_list c n buf mode k ts ≡ scan_pulses c n buf mode k (length ts)
scan_list-length c n buf mode k [] = refl
scan_list-length c n buf mode k (t ∷ ts) =
    ap (λ ps. some (scan_pins c n buf mode k) ∷ ps) (scan_list-length c n buf mode (k + 1) ts)

pub length-scan_pulses :
    (c n : ℕ) (buf : Bytes) (mode k m : ℕ) → length (scan_pulses c n buf mode k m) ≡ m
length-scan_pulses c n buf mode k zero = refl
length-scan_pulses c n buf mode k (suc m) = ap suc (length-scan_pulses c n buf mode (k + 1) m)

-- The pulses of a scan, whatever comes back.
serve_scan-pulses :
    (c m : ℕ) (ts ks : List ℕ) (p : OcdVpiCmd) (w : World)
    → AsksScan c (suc m) p
    → Between w
    → length ks ≡ vpi_pkt_size
    → length ts ≡ suc m
    → (serve_scan p ts ks w).0
      ≡ scan_pulses c (suc m) p.buffer_out w.server.signals.pending_mode_select 0 (suc m)
serve_scan-pulses c m [] ks p w a b calls h = absurd (omega arith)
serve_scan-pulses c m (t ∷ ts) ks p w a b calls h =
    let mode = w.server.signals.pending_mode_select in
    let asks : AsksScan c (length (t ∷ ts)) p = rw (h) a in
    (serve_scan-Served c t ts ks p w asks b calls).pins
    ∙ scan_list-length c (length (t ∷ ts)) p.buffer_out mode 0 (t ∷ ts)
    ∙ ap (λ n. scan_pulses c n p.buffer_out mode 0 n) h

-- `clock` is what the device does with the pins that it is handed, `tdo` what it then drives.
module _ {D : Type 0} (clock : Pins → D → D) (tdo : D → ℕ) where
  abbrev pub driven : Option Pins → D → D
  driven none d = d
  driven (some p) d = clock p d

  abbrev pub all_driven : List (Option Pins) → D → D
  all_driven [] d = d
  all_driven (p ∷ ps) d = all_driven ps (driven p d)

  -- The TDO values behind each of the pulses.
  abbrev pub answers : List (Option Pins) → D → List ℕ
  answers [] d = []
  answers (p ∷ ps) d = tdo (driven p d) ∷ answers ps (driven p d)

  pub length-answers : (ps : List (Option Pins)) (d : D) → length (answers ps d) ≡ length ps
  length-answers [] d = refl
  length-answers (p ∷ ps) d = ap suc (length-answers ps (driven p d))

  -- Polls, after each of which the simulation drives the device and reports its TDO.
  unfoldable pub attached_all : ℕ → World → D → (List (Option Pins) × World) × D
  attached_all zero w d = (([], w), d)
  attached_all (suc n) w d =
      let p = offered (poll w) in
      let ((ps, w'), d') = attached_all n (simulated (tdo (driven p d)) w).1 (driven p d) in
      ((p ∷ ps, w'), d')

  record Attached (n : ℕ) (w : World) (d : D) (r : (List (Option Pins) × World) × D) : Type 0 where
    open_loop : simulated_all (answers r.0.0 d) w ≡ r.0
    device : r.1 ≡ all_driven r.0.0 d
    count : length r.0.0 ≡ n

  attached_all-Attached : (n : ℕ) (w : World) (d : D) → Attached n w d (attached_all n w d)
  unfolding attached_all simulated_all simulated
  attached_all-Attached zero w d = record { open_loop = refl; device = refl; count = refl }
  attached_all-Attached (suc n) w d =
      let p = offered (poll w) in
      let rest = attached_all-Attached n (simulated (tdo (driven p d)) w).1 (driven p d) in
      record {
        open_loop =
            ap {A = List (Option Pins) × World} {B = List (Option Pins) × World}
              (λ r. (p ∷ r.0, r.1)) rest.open_loop;
        device = rest.device;
        count = ap suc rest.count;
      }

  -- A scan of the device.
  unfoldable pub attached_scan :
      OcdVpiCmd → ℕ → List ℕ → World → D → (List (Option Pins) × World) × D
  unfolding attached_all
  attached_scan p n ks w d =
      let ((pins, w'), d') = attached_all n (poll (record w { inbox = arrives (image p) })) d in
      ((pins, polls (suc (length ks)) (record w' { sends = taking ks })), d')

  -- It is the scan with the answers of the device to the pulses of the packet.
  pub attached_scan_lem :
      (c m : ℕ) (ks : List ℕ) (p : OcdVpiCmd) (w : World) (d : D)
      → AsksScan c (suc m) p
      → Between w
      → length ks ≡ vpi_pkt_size
      → let pulses =
          scan_pulses c (suc m) p.buffer_out w.server.signals.pending_mode_select 0 (suc m) in
        attached_scan p (suc m) ks w d ≡ (serve_scan p (answers pulses d) ks w, all_driven pulses d)
  unfolding attached_scan serve_scan
  attached_scan_lem c m ks p w d a b calls =
      let v = poll (record w { inbox = arrives (image p) }) in
      let r = attached_all (suc m) v d in
      let at = attached_all-Attached (suc m) v d in
      let ts = answers r.0.0 d in
      let same : r.0.0
          ≡ scan_pulses c (suc m) p.buffer_out w.server.signals.pending_mode_select 0 (suc m) =
        sym (ap {A = List (Option Pins) × World} (λ s. s.0) at.open_loop)
        ∙ serve_scan-pulses c m ts ks p w a b calls (length-answers r.0.0 d ∙ at.count) in
      ap₂ {A = List (Option Pins) × World} {B = D}
        (λ s e. ((s.0, polls (suc (length ks)) (record s.1 { sends = taking ks })), e))
        (sym at.open_loop) at.device
      ∙ ap (λ ps. (serve_scan p (answers ps d) ks w, all_driven ps d)) same

  -- An OScan1 exchange with the device.
  unfoldable pub attached_oscan1 : OcdVpiCmd → List ℕ → World → D → (List (Option Pins) × World) × D
  attached_oscan1 p ks w d =
      let w₁ = poll (record w { inbox = arrives (image p) }) in
      let first = offered w₁ in
      let second = offered (poll (taken w₁)) in
      let d' = driven second (driven first d) in
      (
        (
          first ∷ second ∷ [],
          polls (length ks) (record (answering (tdo d') w₁) { sends = taking ks }),
        ),
        d',
      )

  pub attached_oscan1_lem :
      (ks : List ℕ) (p : OcdVpiCmd) (w : World) (d : D)
      → IsSized p
      → le32_to_host p.cmd_buf ≡ 5
      → Between w
      → length ks ≡ vpi_pkt_size
      → let pulses = some (edge (control_bit p 1) 0) ∷ some (edge 0 (control_bit p 0)) ∷ [] in
        attached_oscan1 p ks w d
        ≡ (serve_oscan1 p (tdo (all_driven pulses d)) ks w, all_driven pulses d)
  unfolding attached_oscan1 serve_oscan1
  attached_oscan1_lem ks p w d z c b calls =
      ap (λ ps. (serve_oscan1 p (tdo (all_driven ps d)) ks w, all_driven ps d))
        (serve_oscan1-ServedEdges 0 ks p w z c b calls).pins
