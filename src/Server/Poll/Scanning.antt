-- ===== src/Server/Poll/Scanning.antt =====
-- One scan of a client of the full protocol, from the bytes that come in to the bytes that go out.
use jtag.Prelude.{
  ℕ, suc, ◌≡◌, refl, sym, ap, ◌∙◌, false, List, [], ◌∷◌, ◌++◌, Option, map, length, arith, min,
  length-blit, length-replicate,
}
use jtag.Wire.{Bytes, OcdVpiCmd, image, header, zeros, vpi_pkt_size, buffer_size}
use jtag.Wire.Layout.{header-IsSized, length-image}
use jtag.Server.State.{World}
use jtag.Server.Signals.{Pins}
use jtag.Server.Connection.{store_packet}
use jtag.Server.Packet.{start_full_scan}
use jtag.Server.Packet.FullScan.{
  scan_list, shift_list-start, tdo-AreBytes, tdo-size, length-flip_tms,
}
use jtag.Server.Scan.{bytes_of_bits}
use jtag.Server.Scan.Engine.{bits_from, level, shift_list, shift_list-Kept}
use jtag.Server.Work.{empty_packet}
use jtag.Server.Work.Transmit.{taking}
use jtag.Server.Poll.{poll}
use jtag.Server.Poll.Clients.{polls}
use jtag.Server.Poll.Shifting.{simulated_all}
use jtag.Server.Poll.Between.{Between, arrives, starts_with, stored-packet}
use jtag.Server.Poll.Requests.{
  AsksScan, started, poll-starts, stored-IsReady, started-IsAt, started-Shifting,
}
use jtag.Server.Poll.Responses.{
  Begun, response, response-bits, served, served-Between, served-wire, served-mode, served-pins,
}

-- One scan: a poll takes in the packet; for each bit there is a poll, after which the simulation
-- takes the pulse and reports TDO; one more poll takes in the last answer, and the others send the
-- response, each at least a byte.
unfoldable pub serve_scan : OcdVpiCmd → List ℕ → List ℕ → World → List (Option Pins) × World
serve_scan p tdos ks w =
    let (pins, w') = simulated_all tdos (poll (record w { inbox = arrives (image p) })) in
    (pins, polls (suc (length ks)) (record w' { sends = taking ks }))

-- What a scan comes to.
pub record Served (c : ℕ) (p : OcdVpiCmd) (tdos : List ℕ) (w : World)
    (r : List (Option Pins) × World) : Type 0 where
  pub pins :
      r.0 ≡ scan_list c (length tdos) p.buffer_out w.server.signals.pending_mode_select 0 tdos
  pub answer : OcdVpiCmd
  pub wire : r.1.wire ≡ w.wire ++ image answer
  pub head : answer ≡ record (header c (bytes_of_bits (length tdos)) (length tdos)) {
    buffer_in = answer.buffer_in;
  }
  pub bits : bits_from false answer.buffer_in 0 (length tdos) ≡ map level tdos
  pub between : Between r.1
  pub mode : r.1.server.signals.pending_mode_select ≡ w.server.signals.pending_mode_select

module _ (c n x : ℕ) (xs : Bytes) (p : OcdVpiCmd) (a : AsksScan c n p)
    (whole : x ∷ xs ≡ image p) where
  started-Begun : (w : World) → Between w → Begun n (started c n (x ∷ xs) w.server)
  unfolding empty_packet start_full_scan zeros
  started-Begun w b =
      let s = store_packet (x ∷ xs) w.server in
      let r = stored-IsReady c n x xs p a whole w.server b.ready in
      record {
        shifting = started-Shifting c n x xs p a whole w b.receiving;
        at = started-IsAt c n x xs p a whole w.server b.ready;
        legacy = refl;
        bytes = tdo-AreBytes c n s;
        tdo_size = tdo-size c n s;
        count = refl;
        full = unfold store_packet in b.receiving.full;
        empty = refl;
        sized = header-IsSized c (bytes_of_bits n) n;
        lsb = unfold store_packet in b.ready.lsb;
        rx_size = length-replicate {A = ℕ} 1036 0;
        tms_size =
            length-flip_tms c n _
            ∙ length-blit s.scan.tms_buf 0 (zeros (min (bytes_of_bits n) buffer_size))
            ∙ r.tms_size;
        tdi_size = length-blit s.scan.tdi_buf 0 _ ∙ r.tdi_size;
        seq_size = unfold store_packet in b.ready.seq_size;
      }

-- A scan of a ready connection, of at least one bit, with the packet as its bytes.
module _ (c x t : ℕ) (xs : Bytes) (ts ks : List ℕ) (p : OcdVpiCmd) (w : World)
    (a : AsksScan c (length (t ∷ ts)) p) (whole : x ∷ xs ≡ image p) (b : Between w)
    (calls : length ks ≡ vpi_pkt_size) where
  abbrev first : World
  first = record w { inbox = []; server = started c (length (t ∷ ts)) (x ∷ xs) w.server }

  begun : Begun (length (t ∷ ts)) first.server
  begun = started-Begun c (length (t ∷ ts)) x xs p a whole w b

  first-pins :
      shift_list first.server 0 (t ∷ ts)
      ≡ scan_list c (length (t ∷ ts)) p.buffer_out w.server.signals.pending_mode_select 0 (t ∷ ts)
  unfolding empty_packet
  first-pins =
      let n = length (t ∷ ts) in
      let s = store_packet (x ∷ xs) w.server in
      shift_list-Kept {s = start_full_scan c n s} {t = first.server}
        (record { msb = refl; tms = refl; tdi = refl; legacy = refl; mode = refl }) 0 (t ∷ ts)
      ∙ shift_list-start c n 0 (t ∷ ts) s a.some_bits a.fits (omega arith)
          (unfold store_packet in b.ready.lsb) (stored-IsReady c n x xs p a whole w.server b.ready)
      ∙ ap (λ (o : OcdVpiCmd). scan_list c n o.buffer_out s.signals.pending_mode_select 0 (t ∷ ts))
          (stored-packet x xs p a.sized whole w.server b.ready).0
      ∙ (unfold store_packet in refl)

  first-Served :
      Served c p
        (t ∷ ts)
        w
        ((simulated_all (t ∷ ts) first).0, served t ts ks first begun a.fits refl calls)
  unfolding empty_packet start_full_scan store_packet
  first-Served = record {
    pins = served-pins t ts ks first begun a.fits refl calls ∙ first-pins;
    answer = response t ts ks first begun a.fits refl calls;
    wire = served-wire t ts ks first begun a.fits refl calls;
    head = refl;
    bits = response-bits t ts ks first begun a.fits refl calls;
    between = served-Between t ts ks first begun a.fits refl calls;
    mode = served-mode t ts ks first begun a.fits refl calls;
  }

  serve_scan-first :
      serve_scan p (t ∷ ts) ks w
      ≡ ((simulated_all (t ∷ ts) first).0, served t ts ks first begun a.fits refl calls)
  unfolding serve_scan
  serve_scan-first =
      ap
        (λ bs.
          (let (pins, w') = simulated_all (t ∷ ts) (poll (record w { inbox = arrives bs })) in
            (pins, polls (suc (length ks)) (record w' { sends = taking ks }))))
        (sym whole)
      ∙ ap
          (λ v.
            (let (pins, w') = simulated_all (t ∷ ts) v in
              (pins, polls (suc (length ks)) (record w' { sends = taking ks }))))
          (poll-starts c (length (t ∷ ts)) x xs p a whole w b.receiving b.ready)

pub serve_scan-Served :
    (c t : ℕ) (ts ks : List ℕ) (p : OcdVpiCmd) (w : World)
    → AsksScan c (length (t ∷ ts)) p
    → Between w
    → length ks ≡ vpi_pkt_size
    → Served c p (t ∷ ts) w (serve_scan p (t ∷ ts) ks w)
serve_scan-Served c t ts ks p w a b calls =
    let (x, xs, whole) = starts_with (image p) (omega (arith, length-image p a.sized)) in
    rw (serve_scan-first c x t xs ts ks p w a whole b calls)
      (first-Served c x t xs ts ks p w a whole b calls)
