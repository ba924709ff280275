-- ===== src/Server/Packet/Reset.antt =====
-- CMD_RESET of `process_vpi_packet`: the pulses that the simulation gets to see.
use jtag.Prelude.{
  bit_at, get_or, ◌++◌, ℕ, zero, suc, ◌≡◌, refl, ap, ap₂, ◌∙◌, true, false, List, [], ◌∷◌, Option,
  none, some, replicate, arith,
}
use jtag.Wire.{of_image}
use jtag.Server.State.{Server, Signals, World}
use jtag.Server.Signals.{Pins, get_pending_signals, request_pulse}
use jtag.Server.Connection.{close_connection, reset_connection}
use jtag.Server.Response.{conclude, send_minimal_response}
use jtag.Server.Packet.{do_reset, start_reset, start_oscan1, clear_reset, queue_empty_response}

-- What `n` calls of `get_pending_signals` in a row return, and the signals behind them.
unfoldable pub take_pins : ℕ → Signals → List (Option Pins) × Signals
take_pins zero g = ([], g)
take_pins (suc n) g =
    let (p, g₁) = get_pending_signals g in let (ps, g₂) = take_pins n g₁ in (p ∷ ps, g₂)

-- A pulse with TMS high, in the mode that is set.
abbrev pub reset_pins : ℕ → Pins
reset_pins mode = record {
  tms = 1;
  tdi = 0;
  mode_sel = mode;
  tck_pulse = true;
  tckc_toggle = false;
}

record ResetPending (n : ℕ) (g : Signals) : Type 0 where
  left : g.reset_pulses_remaining ≡ n
  tms : g.pending_tms ≡ 1
  tdi : g.pending_tdi ≡ 0
  pulse : g.pending_tck_pulse ≡ true
  toggle : g.pending_tckc_toggle ≡ false

pub record AllTaken (n : ℕ) (g : Signals) (r : List (Option Pins) × Signals) : Type 0 where
  pub pins : r.0 ≡ replicate (suc n) (some (reset_pins g.pending_mode_select))
  pub left : r.1.reset_pulses_remaining ≡ 0
  pub pulse : r.1.pending_tck_pulse ≡ false
  pub toggle : r.1.pending_tckc_toggle ≡ false
  pub mode_kept : r.1.pending_mode_select ≡ g.pending_mode_select

record NextPulse (n mode : ℕ) (r : Option Pins × Signals) : Type 0 where
  pins : r.0 ≡ some (reset_pins mode)
  mode_kept : r.1.pending_mode_select ≡ mode
  rest : ResetPending n r.1

next_pulse :
    (n : ℕ) (g : Signals)
    → ResetPending (suc n) g
    → NextPulse n g.pending_mode_select (get_pending_signals g)
unfolding get_pending_signals
next_pulse n g h = ground arith

record LastPulse (mode : ℕ) (r : Option Pins × Signals) : Type 0 where
  pins : r.0 ≡ some (reset_pins mode)
  left : r.1.reset_pulses_remaining ≡ 0
  pulse : r.1.pending_tck_pulse ≡ false
  toggle : r.1.pending_tckc_toggle ≡ false
  mode_kept : r.1.pending_mode_select ≡ mode

last_pulse :
    (g : Signals) → ResetPending 0 g → LastPulse g.pending_mode_select (get_pending_signals g)
unfolding get_pending_signals
last_pulse g h = ground arith

take_pins-AllTaken : (n : ℕ) (g : Signals) → ResetPending n g → AllTaken n g (take_pins (suc n) g)
unfolding take_pins
take_pins-AllTaken zero g h =
    let p = last_pulse g h in
    record {
      pins = ap (λ x. x ∷ []) p.pins;
      left = p.left;
      pulse = p.pulse;
      toggle = p.toggle;
      mode_kept = p.mode_kept;
    }
take_pins-AllTaken (suc n) g h =
    let p = next_pulse n g h in
    let ih = take_pins-AllTaken n (get_pending_signals g).1 p.rest in
    record {
      pins =
          ap₂ ◌∷◌ p.pins (ih.pins ∙ ap (λ m. replicate (suc n) (some (reset_pins m))) p.mode_kept);
      left = ih.left;
      pulse = ih.pulse;
      toggle = ih.toggle;
      mode_kept = ih.mode_kept ∙ p.mode_kept;
    }

pub start_reset-AllTaken :
    (s : Server)
    → s.signals.pending_tckc_toggle ≡ false
    → AllTaken 6 (start_reset s).signals (take_pins 7 (start_reset s).signals)
unfolding start_reset request_pulse
start_reset-AllTaken s t =
    take_pins-AllTaken 6 (start_reset s).signals
      (record { left = refl; tms = refl; tdi = refl; pulse = refl; toggle = t })

-- CMD_RESET of the full protocol: whatever was pending, the next seven calls of
-- `get_pending_signals` each hand out a pulse with TMS high and TDI low, so that the TAP goes
-- through at least five; then no pulse is left. (No TCKC edge may be pending.)
pub reset_pulses :
    (w : World)
    → w.server.vpi_minimal_mode ≡ false
    → w.server.signals.pending_tckc_toggle ≡ false
    → let (pins, g) = take_pins 7 (do_reset w).server.signals in
      (pins ≡ replicate 7 (some (reset_pins w.server.signals.pending_mode_select)))
      × (g.reset_pulses_remaining ≡ 0)
      × (g.pending_tck_pulse ≡ false)
unfolding do_reset start_reset queue_empty_response request_pulse
reset_pulses w h t = ground (arith, take_pins-AllTaken 6 (start_reset w.server).signals)

signals-send_minimal_response :
    (a b c d : ℕ) (w : World) → (send_minimal_response a b c d w).server.signals ≡ w.server.signals
unfolding send_minimal_response conclude close_connection reset_connection
signals-send_minimal_response a b c d w = ground arith

-- CMD_RESET of the 8-byte protocol hands out no pulse at all: unless the mode or a TCKC edge is
-- pending, the simulation is told that there is nothing to do, and the TAP is not reset.
pub minimal_reset_no_pulse :
    (w : World)
    → w.server.vpi_minimal_mode ≡ true
    → w.server.signals.pending_tckc_toggle ≡ false
    → w.server.signals.pending_mode_select ≡ w.server.signals.current_mode
    → (get_pending_signals (do_reset w).server.signals).0 ≡ none
unfolding do_reset start_reset clear_reset request_pulse get_pending_signals
minimal_reset_no_pulse w m t e = ground (
  arith,
  signals-send_minimal_response 0 0 w.server.signals.current_mode 0
      (record w { server = start_reset w.server }),
)

-- A pulse and an edge in one, with TMS of the edge.
abbrev pub merged_pins : ℕ → Pins
merged_pins tms = record { tms = tms; tdi = 0; mode_sel = 1; tck_pulse = true; tckc_toggle = true }

record Backlog (n tms : ℕ) (g : Signals) : Type 0 where
  left : g.reset_pulses_remaining ≡ n
  pulse : g.pending_tck_pulse ≡ true
  toggle : g.pending_tckc_toggle ≡ true
  tms_set : g.pending_tms ≡ tms
  tdi : g.pending_tdi ≡ 0
  mode : g.pending_mode_select ≡ 1

pulse_first :
    (n tms : ℕ) (g : Signals)
    → Backlog (suc n) tms g
    → ((get_pending_signals g).0 ≡ some (reset_pins 1)) × Backlog n tms (get_pending_signals g).1
unfolding get_pending_signals
pulse_first n tms g h = ground arith

edge_last :
    (tms : ℕ) (g : Signals) → Backlog 0 tms g → (get_pending_signals g).0 ≡ some (merged_pins tms)
unfolding get_pending_signals
edge_last tms g h = ground arith

take_pins-Backlog :
    (n tms : ℕ) (g : Signals)
    → Backlog n tms g
    → (take_pins (suc n) g).0 ≡ replicate n (some (reset_pins 1)) ++ some (merged_pins tms) ∷ []
unfolding take_pins
take_pins-Backlog zero tms g h = ap (λ p. p ∷ []) (edge_last tms g h)
take_pins-Backlog (suc n) tms g h =
    let (pins, rest) = pulse_first n tms g h in
    ap₂ ◌∷◌ pins (take_pins-Backlog n tms (get_pending_signals g).1 rest)

-- CMD_OSCAN1 that is taken in while a reset still has `n` pulses left and one pending: the next
-- calls of `get_pending_signals` hand out only those `n` pulses, already in cJTAG mode, and then the
-- last pulse of the reset and the first edge of the exchange at once, with TMS of the edge.
pub early_edge_merged :
    (n : ℕ) (s : Server)
    → s.signals.reset_pulses_remaining ≡ n
    → s.signals.pending_tck_pulse ≡ true
    → (take_pins (suc n) (start_oscan1 s).signals).0
      ≡ replicate n (some (reset_pins 1))
        ++ some (merged_pins (bit_at (get_or (of_image s.rx.vpi_cmd_rx).buffer_out 0 0) 1)) ∷ []
unfolding start_oscan1
early_edge_merged n s r p =
    take_pins-Backlog n (bit_at (get_or (of_image s.rx.vpi_cmd_rx).buffer_out 0 0) 1)
      (start_oscan1 s).signals
      (record { left = r; pulse = p; toggle = refl; tms_set = refl; tdi = refl; mode = refl })
