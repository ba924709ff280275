-- ===== src/Server/Valid/Commands.antt =====
-- The commands of `process_vpi_packet` keep the invariant, as long as the client names no more bits
-- than the arrays hold.
use jtag.Prelude.{
  ℕ, ◌-◌, ◌^◌, ◌<◌, ◌≤◌, ◌≡◌, inl, inr, Bool, true, false, length-blit, blit, take, arith, min, ltb,
  ◌==◌, ◌&&◌, ◌||◌, ==_iff, Bool-cases, if◌then◌else◌,
}
use jtag.Wire.{zeros, buffer_size, of_image}
use jtag.Wire.Layout.{header-IsSized}
use jtag.Server.Packet.FullScan.{length-flip_tms}
use jtag.Server.State.{Scan, Server, World, on_server}
use jtag.Server.Connection.{close_connection}
use jtag.Server.Signals.{request_pulse}
use jtag.Server.Response.{send_minimal_response, conclude}
use jtag.Server.Scan.{fresh_scan, bytes_of_bits}
use jtag.Server.Packet.{
  Request, parse_packet, queue_empty_response, start_reset, clear_reset, do_reset, start_tms_seq,
  start_minimal_scan, start_full_scan, start_oscan1, do_scan, perform, process_vpi_packet,
}
use jtag.Server.Valid.{ScanIsValid, IsValid}
use jtag.Server.Valid.Operations.{length-zeros, reset_connection-IsValid}

-- A command whose number of bits is above 4096, in the cases where the code does not look at it.
abbrev pub is_overlong : Bool → Request → Bool
is_overlong minimal r =
    ltb 4096 r.nb_bits && (r.cmd == 1 || (if minimal then false else r.cmd == 2 || r.cmd == 3))

pub send_minimal_response-IsValid :
    (a b c d : ℕ) (w : World) → IsValid w.server → IsValid (send_minimal_response a b c d w).server
unfolding send_minimal_response conclude close_connection
send_minimal_response-IsValid a b c d w v = ground (arith, reset_connection-IsValid w.server v)

pub start_reset-IsValid : (s : Server) → IsValid s → IsValid (start_reset s)
unfolding start_reset request_pulse
start_reset-IsValid s v = ground arith

clear_reset-IsValid : (s : Server) → IsValid s → IsValid (clear_reset s)
unfolding clear_reset
clear_reset-IsValid s v = ground arith

queue_empty_response-IsValid : (c : ℕ) (s : Server) → IsValid s → IsValid (queue_empty_response c s)
unfolding queue_empty_response
queue_empty_response-IsValid c s v = ground (arith, header-IsSized c 0 0)

do_reset-IsValid : (w : World) → IsValid w.server → IsValid (do_reset w).server
unfolding do_reset
do_reset-IsValid w v =
    let started : World = on_server start_reset w in
    let u = start_reset-IsValid w.server v in
    let answered : World =
      send_minimal_response 0 0 started.server.signals.current_mode 0 started in
    ground (
      arith,
      queue_empty_response-IsValid 0 started.server u,
      clear_reset-IsValid answered.server
          (send_minimal_response-IsValid 0 0 started.server.signals.current_mode 0 started u),
    )

start_tms_seq-IsValid : (n : ℕ) (s : Server) → n ≤ 4096 → IsValid s → IsValid (start_tms_seq n s)
unfolding start_tms_seq queue_empty_response
start_tms_seq-IsValid n s h v = ground (
  arith,
  header-IsSized 1 0 0,
  length-blit s.tms_seq.buf 0
      (take (min (bytes_of_bits n) buffer_size) (of_image s.rx.vpi_cmd_rx).buffer_out),
)

fresh_scan-IsValid : (n : ℕ) (c : Scan) → n ≤ 4096 → 0 < n → ScanIsValid (fresh_scan n c)
unfolding fresh_scan
fresh_scan-IsValid n c h p = ground (arith, length-zeros 512)

start_minimal_scan-IsValid :
    (n : ℕ) (w : World) → IsValid w.server → IsValid (start_minimal_scan n w).server
unfolding start_minimal_scan
start_minimal_scan-IsValid n w v =
    let answered : World =
      send_minimal_response 0 w.server.signals.current_tdo w.server.signals.current_mode 0 w in
    ground (
      arith,
      send_minimal_response-IsValid 0 w.server.signals.current_tdo w.server.signals.current_mode 0 w
          v,
      fresh_scan-IsValid n answered.server.scan,
    )

start_full_scan-IsValid :
    (c n : ℕ) (s : Server) → n ≤ 4096 → IsValid s → IsValid (start_full_scan c n s)
unfolding start_full_scan
start_full_scan-IsValid c n s h v =
    let m = bytes_of_bits n in
    ground (
      arith,
      header-IsSized c m n,
      length-zeros 512,
      length-flip_tms c n (blit s.scan.tms_buf 0 (zeros (min m buffer_size))),
      length-blit s.scan.tms_buf 0 (zeros (min m buffer_size)),
      length-blit s.scan.tdi_buf 0 (take m (of_image s.rx.vpi_cmd_rx).buffer_out),
    )

start_oscan1-IsValid : (s : Server) → IsValid s → IsValid (start_oscan1 s)
unfolding start_oscan1
start_oscan1-IsValid s v = ground (arith, header-IsSized 5 1 2)

do_scan-IsValid :
    (c n : ℕ) (w : World)
    → (w.server.vpi_minimal_mode ≡ false → n ≤ 4096)
    → IsValid w.server
    → IsValid (do_scan c n w).server
unfolding do_scan
do_scan-IsValid c n w h v = ground (
  arith,
  send_minimal_response-IsValid 0 w.server.signals.current_tdo w.server.signals.current_mode 0 w v,
  start_minimal_scan-IsValid n w v,
  start_full_scan-IsValid c n w.server,
)

-- A property of the world after a command, from each of its cases.
pub perform_cases {ℓ} :
    (P : World → Type ℓ) (r : Request) (w : World)
    → P (do_reset w)
    → (r.cmd ≡ 1 → P (on_server (start_tms_seq r.nb_bits) w))
    → ((r.cmd == 2 || r.cmd == 3) ≡ true → P (do_scan r.cmd r.nb_bits w))
    → P (close_connection w)
    → P (on_server start_oscan1 w)
    → P w
    → P (perform r w)
unfolding perform
perform_cases P r w reset seq scan closed oscan other = elim (Bool-cases (r.cmd == 0)) [
  | inl e ↦ rw (e, perform) reset
  | inr e ↦ elim (Bool-cases (r.cmd == 1)) [
    | inl e₁ ↦ rw (e, e₁, perform) (seq ((==_iff r.cmd 1).0 e₁))
    | inr e₁ ↦ elim (Bool-cases (r.cmd == 2 || r.cmd == 3)) [
      | inl e₂ ↦ rw (e, e₁, e₂, perform) (scan e₂)
      | inr e₂ ↦ elim (Bool-cases (r.cmd == 4)) [
        | inl e₃ ↦ rw (e, e₁, e₂, e₃, perform) closed
        | inr e₃ ↦ elim (Bool-cases (r.cmd == 5)) [
          | inl e₄ ↦ rw (e, e₁, e₂, e₃, e₄, perform) oscan
          | inr e₄ ↦ rw (e, e₁, e₂, e₃, e₄, perform) other
        ]
      ]
    ]
  ]
]

seq_fits : (m : Bool) (r : Request) → is_overlong m r ≡ false → r.cmd ≡ 1 → r.nb_bits ≤ 4096
seq_fits m r h e = ground arith

scan_fits :
    (m : Bool) (r : Request)
    → is_overlong m r ≡ false
    → (r.cmd == 2 || r.cmd == 3) ≡ true
    → m ≡ false
    → r.nb_bits ≤ 4096
scan_fits m r h e z = ground arith

-- A command of the client keeps the invariant unless it names more than 4096 bits where the code
-- does not look: in a TMS sequence, and in a scan of the full protocol.
pub process_vpi_packet-IsValid :
    (w : World)
    → is_overlong w.server.vpi_minimal_mode (parse_packet w.server) ≡ false
    → IsValid w.server
    → IsValid (process_vpi_packet w).server
unfolding process_vpi_packet close_connection
process_vpi_packet-IsValid w h v =
    let m = w.server.vpi_minimal_mode in
    let r = parse_packet w.server in
    perform_cases (λ w'. IsValid w'.server) r w (do_reset-IsValid w v)
      (λ e. start_tms_seq-IsValid r.nb_bits w.server (seq_fits m r h e) v)
      (λ e. do_scan-IsValid r.cmd r.nb_bits w (scan_fits m r h e) v)
      (reset_connection-IsValid w.server v) (start_oscan1-IsValid w.server v) v

-- A scan of the full protocol that names more bits than its arrays hold, and fewer than 2 ^ 32 - 7,
-- copies past their ends.
pub full_scan_overruns :
    (c n : ℕ) (s : Server) → 4096 < n → n < 2 ^ 32 - 7 → (start_full_scan c n s).fault ≡ true
unfolding start_full_scan
full_scan_overruns c n s h b = ground arith
