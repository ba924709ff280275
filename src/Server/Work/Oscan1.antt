-- ===== src/Server/Work/Oscan1.antt =====
-- CMD_OSCAN1: the two edges of an SF0 exchange and its response.
use jtag.Prelude.{
  ℕ, ◌%◌, ◌≡◌, Bool, true, false, ◌∷◌, [], Option, some, blit, bit_at, arith, get_or,
}
use jtag.Wire.{header, of_image}
use jtag.Server.State.{Sf0State, World, on_server}
use jtag.Server.Signals.{Pins, get_pending_signals, update_signals}
use jtag.Server.Packet.{start_oscan1}
use jtag.Server.Work.{
  continue_vpi_work, flush_tx, sf0_work, falling_edge, answer_oscan1, edge_outstanding,
}

-- The simulation takes what is pending.
abbrev pub taken : World → World
taken = on_server (λ s. record s { signals = (get_pending_signals s.signals).1 })

abbrev pub offered : World → Option Pins
offered w = (get_pending_signals w.server.signals).0

-- The simulation reports TDO.
abbrev pub seen : ℕ → World → World
seen tdo = on_server (λ s. record s {
  signals =
      update_signals tdo s.signals.current_tdo_en s.signals.current_idcode s.signals.current_mode
        s.signals;
})

-- A toggle of TCKC in cJTAG mode.
abbrev pub edge : ℕ → ℕ → Pins
edge tms tdi = record { tms = tms; tdi = tdi; mode_sel = 1; tck_pulse = false; tckc_toggle = true }

abbrev waiting : Sf0State → Bool
waiting Sf0State.send_tms = true
waiting Sf0State.send_tdi = true
waiting _ = false

-- While the edge that an exchange asked for is outstanding, and no response is pending, the work
-- of a poll changes nothing.
pub oscan1_waits :
    (w : World)
    → waiting w.server.sf0.state ≡ true
    → w.server.tx.vpi_tx_pending ≡ false
    → edge_outstanding w.server ≡ true
    → continue_vpi_work w ≡ w
unfolding continue_vpi_work flush_tx sf0_work
oscan1_waits w s t e = ground arith

-- The four steps of an exchange: the first edge is taken, the work goes on, the second edge is
-- taken, TDO is reported, the work goes on.
abbrev pub rising : World → World
rising w = on_server start_oscan1 w

abbrev pub falling : World → World
falling w = continue_vpi_work (taken (rising w))

abbrev pub answered : ℕ → World → World
answered tdo w = continue_vpi_work (seen tdo (taken (falling w)))

pub record Exchange (tdo tms tdi : ℕ) (w : World) : Type 0 where
  pub first : offered (rising w) ≡ some (edge tms 0)
  pub second : offered (falling w) ≡ some (edge 0 tdi)
  pub done : (answered tdo w).server.sf0.state ≡ Sf0State.resting
  pub queued : (answered tdo w).server.tx.vpi_tx_pending ≡ true
  pub from_start : (answered tdo w).server.tx.vpi_tx_bytes ≡ 0
  pub packet :
      (answered tdo w).server.tx.vpi_cmd_tx
      ≡ record (header 5 1 2) { buffer_in = blit (header 5 1 2).buffer_in 0 (tdo % 2 ∷ []) }

-- CMD_OSCAN1 with no pulse or reset outstanding: the simulation gets exactly a first TCKC edge with
-- bit 1 of the control byte on TMS (pin 1, which is TMSC) and TDI (pin 2) low, then a second edge
-- with TMS low and bit 0 on TDI, both in cJTAG mode, so that TMSC is low at the second edge whatever
-- that bit is; then a response with command 5, length 1, 2 bits and the lowest TDO bit in
-- its first byte is queued from its start.
pub oscan1-Exchange :
    (tdo : ℕ) (w : World)
    → w.server.signals.reset_pulses_remaining ≡ 0
    → w.server.signals.pending_tck_pulse ≡ false
    → Exchange tdo
        (bit_at (get_or (of_image w.server.rx.vpi_cmd_rx).buffer_out 0 0) 1)
        (bit_at (get_or (of_image w.server.rx.vpi_cmd_rx).buffer_out 0 0) 0)
        w
unfolding continue_vpi_work flush_tx sf0_work start_oscan1 get_pending_signals update_signals
    falling_edge answer_oscan1
oscan1-Exchange tdo w r p = ground arith
