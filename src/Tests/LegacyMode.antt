-- ===== src/Tests/LegacyMode.antt =====
-- A session of the legacy mode, at concrete inputs.
use jtag.Prelude.{ℕ, ◌≡◌, refl, List, [], ◌∷◌, ◌++◌, length-replicate, map, arith, true}
use jtag.Wire.{Bytes, be32_to_host, zeros}
use jtag.Server.State.{World, legacy_8byte, new_server}
use jtag.Server.Poll.LegacyLoading.{Listening}
use jtag.Server.Poll.LegacyCalls.{
  LegacyCall, scan_buffers, reset_jtag, set_port, ask_oscan1, legacy_session, legacy_pins,
}
use jtag.Server.Poll.LegacySession.{
  AllLegacyCalls, no_calls, call_then, AllReplied, joined, legacy_session_served,
}

-- A client of a server that was started for the legacy mode.
legacy_client : World
legacy_client = record {
  server = record new_server { connected = true; protocol_mode = legacy_8byte };
  inbox = [];
  accepts = [];
  sends = [];
  wire = [];
}

legacy_client-Listening : Listening legacy_client
unfolding legacy_client new_server zeros
legacy_client-Listening = record {
  connected = refl;
  protocol = refl;
  no_scan = refl;
  no_bytes = refl;
  sized = length-replicate {A = ℕ} 8 0;
  silent = refl;
  quiet = record { no_pulse = refl; no_reset = refl; no_toggle = refl };
  no_fault = refl;
}

calls : List LegacyCall
calls =
    reset_jtag (0 ∷ 0 ∷ 0 ∷ 0 ∷ 0 ∷ 0 ∷ 0 ∷ 0 ∷ []) 0
    ∷ set_port (3 ∷ 0 ∷ 0 ∷ 0 ∷ 0 ∷ 0 ∷ 0 ∷ 0 ∷ []) 5
    ∷ scan_buffers (record {
      command = 2 ∷ 0 ∷ 0 ∷ 0 ∷ 0 ∷ 0 ∷ 0 ∷ 10 ∷ [];
      tms = 0 ∷ 2 ∷ [];
      tdi = 90 ∷ 1 ∷ [];
      tdo = 1;
      tdos = 0 ∷ 0 ∷ 1 ∷ 0 ∷ 1 ∷ 1 ∷ 1 ∷ 0 ∷ 1 ∷ [];
      room = 0;
      tdo_room = 3;
    })
    ∷ ask_oscan1 (5 ∷ 0 ∷ 0 ∷ 0 ∷ 0 ∷ 0 ∷ 0 ∷ 0 ∷ []) 0
    ∷ []

calls-AllLegacyCalls : AllLegacyCalls calls
unfolding calls be32_to_host
calls-AllLegacyCalls =
    call_then (refl, refl, omega arith)
      (call_then (refl, refl, omega arith)
        (call_then ((refl, refl, omega arith), refl, refl, refl)
          (call_then (refl, refl, omega arith) no_calls)))

legacy_session_served_example :
    let (pins, w') = legacy_session calls legacy_client in
    let s = legacy_client.server in
    (pins ≡ map (legacy_pins s.msb_first s.signals.pending_mode_select) calls)
    × ((replies : List Bytes) × AllReplied s.msb_first s.signals.current_tdo calls replies
        × (w'.wire ≡ legacy_client.wire ++ joined replies))
    × Listening w'
legacy_session_served_example =
    legacy_session_served calls legacy_client calls-AllLegacyCalls legacy_client-Listening
