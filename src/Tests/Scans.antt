-- ===== src/Tests/Scans.antt =====
-- Scans, TMS sequences and SF0 exchanges at concrete inputs.
use jtag.Prelude.{
  ℕ, ◌≡◌, refl, true, false, List, [], ◌∷◌, arith, length, length-replicate, length-blit, get_or,
  ap, ◌∙◌, bit_at, blit,
}
use jtag.Wire.{OcdVpiCmd, header, image, of_image, zeros}
use jtag.Wire.Layout.{header-IsSized, IsSized, of_image-image}
use jtag.Server.State.{Server, World, new_server}
use jtag.Server.Scan.Engine.{IsAt, Shifted, scan_shifts_all}
use jtag.Server.Scan.Buffers.{AreBytes}
use jtag.Server.Packet.{start_full_scan}
use jtag.Server.Packet.FullScan.{IsReady, get_or-zeros, msb_flip_lost}
use jtag.Server.Scan.Engine.{shift_pins}
use jtag.Server.Work.{continue_vpi_work}
use jtag.Server.Work.Oscan1.{Exchange, oscan1-Exchange}
use jtag.Server.Work.TmsSequence.{started, tms_rounds, tms_list, tms_seq_pulses}

-- A packet with 0x15 as the first byte of its `buffer_out`.
packet : OcdVpiCmd
packet = record (header 3 1 5) { buffer_out = blit (zeros 512) 0 (0x15 ∷ []) }

length-zeros : (n : ℕ) → length (zeros n) ≡ n
unfolding zeros
length-zeros n = length-replicate n 0

packet-IsSized : IsSized packet
unfolding packet
packet-IsSized =
    let h = header-IsSized 3 1 5 in
    record {
      cmd_size = h.cmd_size;
      out_size = length-blit (zeros 512) 0 (0x15 ∷ []) ∙ length-zeros 512;
      in_size = h.in_size;
      length_size = h.length_size;
      nb_bits_size = h.nb_bits_size;
    }

-- A new server with this packet in its buffer.
loaded : Server
loaded = record new_server { rx = record new_server.rx { vpi_cmd_rx = image packet } }

loaded_packet : of_image loaded.rx.vpi_cmd_rx ≡ packet
unfolding loaded
loaded_packet = of_image-image packet packet-IsSized

out_size : length (of_image loaded.rx.vpi_cmd_rx).buffer_out ≡ 512
out_size = ap (λ (p : OcdVpiCmd). length p.buffer_out) loaded_packet ∙ packet-IsSized.out_size

loaded-IsReady : IsReady loaded
unfolding loaded new_server
loaded-IsReady = record {
  tms_size = length-zeros 512;
  tdi_size = length-zeros 512;
  out_size = out_size;
  no_pulse = refl;
  no_reset = refl;
  no_toggle = refl;
  no_fault = refl;
}

answers : List ℕ
answers = 1 ∷ 0 ∷ 1 ∷ 1 ∷ 0 ∷ []

-- The engine at the start of that scan.
shifting : Server
shifting = start_full_scan 3 5 loaded

shifting-IsAt : IsAt 0 5 shifting
unfolding shifting start_full_scan loaded new_server
shifting-IsAt = record {
  index = refl;
  total = refl;
  no_pulse = refl;
  no_reset = refl;
  no_toggle = refl;
  no_fault = refl;
}

zeros-AreBytes : AreBytes (zeros 512)
zeros-AreBytes i = omega (arith, get_or-zeros 512 i)

scan_shifts_all_example : Shifted (1 ∷ 0 ∷ 1 ∷ 1 ∷ 0 ∷ []) shifting
scan_shifts_all_example =
    scan_shifts_all 1 (0 ∷ 1 ∷ 1 ∷ 0 ∷ []) shifting shifting-IsAt (omega arith)
      (unfold shifting start_full_scan in zeros-AreBytes)
      (unfold shifting start_full_scan in length-zeros 512)

msb_flip_lost_example :
    (shift_pins (start_full_scan 3 5 (record loaded { msb_first = true })) 4).tms ≡ 0
msb_flip_lost_example =
    msb_flip_lost 5 (record loaded { msb_first = true }) (omega arith) (omega arith) refl
      loaded-IsReady.tms_size

-- The server alone, with no traffic.
quiet : Server → World
quiet s = record { server = s; inbox = []; accepts = []; sends = []; wire = [] }

tms_seq_pulses_example :
    let (pins, w') = tms_rounds 5 (started 5 (quiet loaded)) in
    (pins
      ≡ tms_list
          (quiet loaded).server.signals.pending_mode_select
          (of_image (quiet loaded).server.rx.vpi_cmd_rx).buffer_out
          0
          5)
    × ((continue_vpi_work w').server.tms_seq.active ≡ false)
    × ((continue_vpi_work w').server.signals.pending_tck_pulse ≡ false)
unfolding quiet
tms_seq_pulses_example =
    tms_seq_pulses 5 (quiet loaded) (omega arith) (unfold loaded new_server in refl)
      (unfold loaded new_server in refl) (unfold loaded new_server in refl)
      (unfold loaded new_server in refl) (unfold loaded new_server in refl)
      (unfold loaded new_server in length-zeros 512) out_size

oscan1-Exchange_example :
    Exchange 1
      (bit_at (get_or (of_image (quiet loaded).server.rx.vpi_cmd_rx).buffer_out 0 0) 1)
      (bit_at (get_or (of_image (quiet loaded).server.rx.vpi_cmd_rx).buffer_out 0 0) 0)
      (quiet loaded)
oscan1-Exchange_example =
    oscan1-Exchange 1 (quiet loaded) (unfold quiet loaded new_server in refl)
      (unfold quiet loaded new_server in refl)
