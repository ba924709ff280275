-- ===== src/Server/Poll/Requests.antt =====
-- The poll that takes in a scan of the full protocol.
use jtag.Prelude.{ℕ, ◌<◌, ◌≤◌, ◌≡◌, refl, ap, ◌∙◌, false, ◌⊎◌, inl, inr, [], ◌∷◌, length, arith}
use jtag.Wire.{Bytes, OcdVpiCmd, image, of_image, le32_to_host}
use jtag.Wire.Layout.{IsSized}
use jtag.Socket.{arrived}
use jtag.Server.State.{Server, World, on_server}
use jtag.Server.Connection.{store_packet}
use jtag.Server.Packet.{process_vpi_packet, parse_packet, perform, do_scan, start_full_scan}
use jtag.Server.Packet.FullScan.{IsReady, start-IsAt}
use jtag.Server.Scan.Engine.{IsAt}
use jtag.Server.Work.{empty_packet}
use jtag.Server.Poll.{poll}
use jtag.Server.Poll.Parts.{Receiving, kept, with_inbox}
use jtag.Server.Poll.Between.{Ready, stored-packet, poll-takes}
use jtag.Server.Poll.Shifting.{Shifting}

-- A packet that asks for a scan of `n` bits, as bytes.
pub record AsksScan (c n : ℕ) (p : OcdVpiCmd) : Type 0 where
  pub sized : IsSized p
  pub command : le32_to_host p.cmd_buf ≡ c
  pub scans : (c ≡ 2) ⊎ (c ≡ 3)
  pub total : le32_to_host p.nb_bits_buf ≡ n
  pub some_bits : 0 < n
  pub fits : n ≤ 4096

-- The server that has taken in such a packet.
abbrev pub started : ℕ → ℕ → Bytes → Server → Server
started c n bytes s = empty_packet (start_full_scan c n (store_packet bytes s))

scan-performed :
    (c n : ℕ) (p : OcdVpiCmd) (w : World)
    → AsksScan c n p
    → of_image w.server.rx.vpi_cmd_rx ≡ p
    → w.server.vpi_minimal_mode ≡ false
    → process_vpi_packet w ≡ on_server (start_full_scan c n) w
unfolding process_vpi_packet parse_packet perform do_scan
scan-performed c n p w a e f = elim a.scans [
  | inl two ↦
      ground (arith, ap (λ q. le32_to_host q.cmd_buf) e, ap (λ q. le32_to_host q.nb_bits_buf) e)
  | inr three ↦
      ground (arith, ap (λ q. le32_to_host q.cmd_buf) e, ap (λ q. le32_to_host q.nb_bits_buf) e)
]

module _ (c n x : ℕ) (xs : Bytes) (p : OcdVpiCmd) (a : AsksScan c n p)
    (whole : x ∷ xs ≡ image p) where
  -- The first poll takes in the packet and starts the scan.
  pub poll-starts :
      (w : World)
      → Receiving w
      → Ready w.server
      → poll (with_inbox (arrived x xs ∷ []) w)
        ≡ record w { inbox = []; server = started c n (x ∷ xs) w.server }
  poll-starts w q r =
      poll-takes x xs p a.sized whole w q r
      ∙ ap (on_server empty_packet) (
          scan-performed c n p (kept (x ∷ xs) [] w) a
            (stored-packet x xs p a.sized whole w.server r).0 (unfold store_packet in q.full))

  pub stored-IsReady : (s : Server) → Ready s → IsReady (store_packet (x ∷ xs) s)
  stored-IsReady s r =
      let q = stored-packet x xs p a.sized whole s r in
      record {
        tms_size = unfold store_packet in r.tms_size;
        tdi_size = unfold store_packet in r.tdi_size;
        out_size = ap (λ (o : OcdVpiCmd). length o.buffer_out) q.0 ∙ a.sized.out_size;
        no_pulse = unfold store_packet in r.no_pulse;
        no_reset = unfold store_packet in r.no_reset;
        no_toggle = unfold store_packet in r.no_toggle;
        no_fault = q.1 ∙ r.no_fault;
      }

  pub started-IsAt : (s : Server) → Ready s → IsAt 0 n (started c n (x ∷ xs) s)
  unfolding empty_packet
  started-IsAt s r =
      let b = start-IsAt c n (store_packet (x ∷ xs) s) a.fits (stored-IsReady s r) in
      record {
        index = b.index;
        total = b.total;
        no_pulse = b.no_pulse;
        no_reset = b.no_reset;
        no_toggle = b.no_toggle;
        no_fault = b.no_fault;
      }

  pub started-Shifting : (w : World) → Receiving w → Shifting (started c n (x ∷ xs) w.server)
  unfolding empty_packet start_full_scan store_packet
  started-Shifting w q = record {
    connected = q.connected;
    protocol = q.protocol;
    no_response = refl;
    resting = q.resting;
    no_sequence = q.no_sequence;
    processing = refl;
  }
