-- ===== src/Tests/Loop.antt =====
-- The loop of sim/sim_vpi_main.cpp at concrete inputs, with a small device.
use jtag.Prelude.{
  ◌%◌, ◌^◌, arith, ℕ, ◌≡◌, refl, ap, ◌∙◌, Bool, true, false, not, [], map, ◌+◌, ◌/◌, ◌==◌,
  if◌then◌else◌, replicate, some, ◌⊎◌, ◌∷◌, [], ◌||◌,
}
use jtag.Socket.{arrived, takes, recv, peek, send}
use jtag.Server.State.{World, openocd_vpi, new_server, blank_packet}
use jtag.Server.Signals.{get_pending_signals, update_signals}
use jtag.Server.Connection.{fetch, fetched}
use jtag.Server.Work.{
  flush_tx, sf0_work, tms_work, scan_work, receive_work, packet_work, detect_follow_on,
  continue_vpi_work,
}
use jtag.Server.Poll.{poll}
use jtag.Sim.{
  SimState, sim_idle, vpi_active, vpi_processing, Inputs, Outputs, Sim, start, drive, half_cycles,
  level, act, set_clk, advance, await_request, request, request_connected, process_request,
  drive_pins, rest_pins, tdo_value, tdo_after,
}
use jtag.Server.Valid.{IsValid}
use jtag.Server.Valid.Operations.{new_server-IsValid}
use jtag.Sim.Safe.{Overran, loop_is_safe}
use jtag.Sim.Reset.{tms_at_edges, reset_sequence}
use jtag.Sim.Running.{
  alternating, clock_alternates, asks_for_edge, tck_never_rises, offered, has_request, request_lost,
  request_skipped,
}

-- A device that shows on TDO what TDI was when TCK was last high.
shown : ℕ → Outputs
shown d = record {
  jtag_pin1_o = 0;
  jtag_pin1_oen = 0;
  jtag_pin3_o = d;
  jtag_pin3_oen = 0;
  idcode = 0x1dead3ff;
  active_mode = 0;
}

latch : Inputs → ℕ → ℕ
latch i d = if i.jtag_pin0_i == 1 then i.jtag_pin2_i else d

-- An OpenOCD client is connected and quiet; a pulse, or an edge if `edge`, with TMS high is pending.
waiting : Bool → World
waiting edge = record {
  server = record new_server {
    connected = true;
    protocol_mode = openocd_vpi;
    signals = record new_server.signals {
      pending_tms = 1;
      pending_tck_pulse = not edge;
      pending_tckc_toggle = edge;
    };
  };
  inbox = [];
  accepts = [];
  sends = [];
  wire = [];
}

quiet : (edge : Bool) → poll (waiting edge) ≡ waiting edge
unfolding waiting poll continue_vpi_work flush_tx sf0_work tms_work scan_work receive_work
    packet_work detect_follow_on fetch fetched recv peek send new_server blank_packet
quiet edge = refl

-- The loop in a state, with TCK low.
loop_at : SimState → ℕ → World → Sim
loop_at st k w = record { driver = record (start 0) { state = st; clk_div_counter = k }; world = w }

reset_sequence_example :
    let (seen, last) =
      half_cycles shown latch 91 (record { driver = start 0; world = waiting true }) 0 in
    (tms_at_edges 0 seen ≡ replicate 5 1)
    × (last.driver.state ≡ sim_idle)
    × (last.driver.inputs.rst_n ≡ 1)
    × (last.driver.inputs.jtag_trst_n_i ≡ 1)
    × (last.driver.inputs.jtag_pin0_i ≡ 0)
    × (last.driver.inputs.jtag_pin1_i ≡ 0)
reset_sequence_example = reset_sequence shown latch 0 (waiting true) 0

clock_alternates_example :
    let s = loop_at vpi_active 0 (waiting true) in
    let (seen, last) = half_cycles shown latch 7 s 0 in
    (map (λ i. i.clk) seen ≡ alternating s.driver.clk_pulse_phase 7)
    × (last.driver.cycle_count
        ≡ (s.driver.cycle_count + (7 + level s.driver.clk_pulse_phase) / 2) % 2 ^ 64)
clock_alternates_example =
    clock_alternates shown latch 7 (loop_at vpi_active 0 (waiting true)) 0
      (unfold loop_at start in omega arith)

no_edge : asks_for_edge shown latch 3 (loop_at vpi_active 0 (waiting false)) 0 ≡ false
unfolding asks_for_edge loop_at start drive act set_clk advance await_request request
    request_connected process_request drive_pins rest_pins tdo_value tdo_after get_pending_signals
    update_signals waiting poll continue_vpi_work flush_tx sf0_work tms_work scan_work receive_work
    packet_work detect_follow_on fetch fetched recv peek send new_server blank_packet shown
no_edge = refl

tck_never_rises_example :
    tms_at_edges 0 (half_cycles shown latch 3 (loop_at vpi_active 0 (waiting false)) 0).0 ≡ []
tck_never_rises_example =
    tck_never_rises shown latch 3 (loop_at vpi_active 0 (waiting false)) 0 (unfold loop_at in refl)
      (unfold loop_at start in refl) no_edge

-- What the poll of a pass leaves of a waiting client.
abbrev lying : Bool → SimState → ℕ → Sim
lying edge st k = loop_at st k (waiting edge)

unchanged :
    (edge : Bool) (st : SimState) (k : ℕ)
    → ((poll (lying edge st k).world).server.connected ≡ true)
      × ((offered (lying edge st k)).reset_pulses_remaining ≡ 0)
      × (has_request (offered (lying edge st k)) ≡ true)
      × ((offered (lying edge st k)).pending_tckc_toggle ≡ edge)
unfolding loop_at waiting new_server
unchanged edge st k = (
  ap (λ w. w.server.connected) (quiet edge),
  ap (λ w. w.server.signals.reset_pulses_remaining) (quiet edge),
  ap (λ w. has_request w.server.signals) (quiet edge) ∙ either edge,
  ap (λ w. w.server.signals.pending_tckc_toggle) (quiet edge),
)
  where
    either : (b : Bool) → not b || b ≡ true
    either true = refl
    either false = refl

request_lost_example :
    let s = lying false vpi_active 0 in
    ((drive (shown 1) s).driver.inputs
      ≡ record s.driver.inputs { clk = level s.driver.clk_pulse_phase })
    × ((drive (shown 1) s).driver.state ≡ vpi_processing)
    × (has_request (drive (shown 1) s).world.server.signals ≡ false)
request_lost_example =
    let u = unchanged false vpi_active 0 in
    request_lost (shown 1) (lying false vpi_active 0) (unfold loop_at in refl) u.0 u.1 u.2

request_skipped_example :
    let s = lying false vpi_processing 3 in
    ((drive (shown 1) s).driver.inputs ≡ record s.driver.inputs {
      clk = level s.driver.clk_pulse_phase;
      jtag_pin0_i = 0;
      jtag_pin1_i = 0;
      jtag_pin2_i = 0;
    })
    × ((drive (shown 1) s).driver.state ≡ vpi_active)
    × (has_request (drive (shown 1) s).world.server.signals ≡ false)
request_skipped_example =
    let u = unchanged false vpi_processing 3 in
    request_skipped 2 (shown 1) (lying false vpi_processing 3) (unfold loop_at in refl)
      (unfold loop_at in refl) u.0 u.1 u.2

-- The loop with a client that connects and asks for a scan of 5 bits.
visited : Sim
visited = record {
  driver = start 0;
  world = record {
    server = new_server;
    inbox = [];
    accepts = some (arrived 2 (0 ∷ 0 ∷ 0 ∷ 0 ∷ 0 ∷ 0 ∷ 5 ∷ []) ∷ []) ∷ [];
    sends = takes 4 ∷ [];
    wire = [];
  };
}

loop_is_safe_example :
    IsValid (half_cycles shown latch 300 visited 0).1.world.server
    ⊎ Overran shown latch 300 visited 0
loop_is_safe_example = loop_is_safe shown latch 300 visited 0 (unfold visited in new_server-IsValid)
