-- ===== src/Server/Valid/Flows.antt =====
-- The handlers that receive commands keep the invariant, or have processed a command with too
-- many bits.
use jtag.Prelude.{
  ℕ, ◌-◌, ◌≤◌, ◌≡◌, ◌⊎◌, inl, inr, refl, Bool, true, false, not, [], ◌∷◌, length, length-take,
  arith, ltb, leb, ◌==◌, ◌&&◌, Bool-cases, if◌then◌else◌,
}
use jtag.Wire.{Bytes, vpi_pkt_size, minimal_size}
use jtag.Socket.{Errno, Recv, received, recv_error, recv, peek}
use jtag.Server.State.{Server, World, on_server}
use jtag.Server.Connection.{
  Flow, stop, go, ◌>>=◌, landed, close_connection, fetched, fetch, store_minimal, store_packet,
  strict, tolerant,
}
use jtag.Server.Packet.{parse_packet, process_vpi_packet}
use jtag.Server.Work.{
  empty_minimal, empty_packet, minimal_work, switch_to_minimal, peeked, detect_follow_on,
  packet_work, receive_work, no_more, peek_failed,
}
use jtag.Server.Poll.{first_minimal, first_packet}
use jtag.Server.Valid.{IsValid}
use jtag.Server.Valid.Operations.{
  length-zeros, length-recv, reset_connection-IsValid, store_minimal-IsValid, store_packet-IsValid,
}
use jtag.Server.Valid.Commands.{is_overlong, process_vpi_packet-IsValid}

-- `w'` is what a handler leaves after it has processed a command at `w₁`.
abbrev pub Processed : World → World → Type 0
Processed w₁ w' =
    (w' ≡ on_server empty_minimal (process_vpi_packet w₁))
    ⊎ (w' ≡ on_server empty_packet (process_vpi_packet w₁))

-- The world is valid, or it comes from a valid one by a command with too many bits.
abbrev pub Good : World → Type 0
Good w =
    IsValid w.server
    ⊎ ((w₁ : World) × IsValid w₁.server
        × (is_overlong w₁.server.vpi_minimal_mode (parse_packet w₁.server) ≡ true)
        × Processed w₁ w)

-- A handler ends in a good world, or goes on in a valid one.
pub data Runs : Flow → Type 0 where
  stops : {w : World} → Good w → Runs (stop w)
  goes : {w : World} → IsValid w.server → Runs (go w)

pub bind-Runs :
    {f : Flow} (k : World → Flow)
    → Runs f
    → ((w : World) → IsValid w.server → Runs (k w))
    → Runs (f >>= k)
bind-Runs k (stops g) h = stops g
bind-Runs k (goes {w} v) h = h w v

pub landed-Runs : {f : Flow} → Runs f → Good (landed f)
landed-Runs (stops g) = g
landed-Runs (goes v) = inl v

empty_minimal-IsValid : (s : Server) → IsValid s → IsValid (empty_minimal s)
unfolding empty_minimal
empty_minimal-IsValid s v = ground (arith, length-zeros 8)

empty_packet-IsValid : (s : Server) → IsValid s → IsValid (empty_packet s)
unfolding empty_packet
empty_packet-IsValid s v = ground (arith, length-zeros 1036)

minimal-Good :
    (w : World) → IsValid w.server → Good (on_server empty_minimal (process_vpi_packet w))
minimal-Good w v =
    elim (Bool-cases (is_overlong w.server.vpi_minimal_mode (parse_packet w.server))) [
      | inl e ↦ inr (w, v, e, inl refl)
      | inr e ↦
          inl
            (empty_minimal-IsValid (process_vpi_packet w).server (process_vpi_packet-IsValid w e v))
    ]

packet-Good : (w : World) → IsValid w.server → Good (on_server empty_packet (process_vpi_packet w))
packet-Good w v =
    elim (Bool-cases (is_overlong w.server.vpi_minimal_mode (parse_packet w.server))) [
      | inl e ↦ inr (w, v, e, inr refl)
      | inr e ↦
          inl
            (empty_packet-IsValid (process_vpi_packet w).server (process_vpi_packet-IsValid w e v))
    ]

fetched-Runs :
    (fatal : Errno → Bool) (store : Bytes → Server → Server) (r : Recv) (w : World)
    → ((xs : Bytes) → r ≡ received xs → IsValid (store xs w.server))
    → IsValid w.server
    → Runs (fetched fatal store r w)
unfolding fetched close_connection
fetched-Runs fatal store (received []) w h v = stops (inl (reset_connection-IsValid w.server v))
fetched-Runs fatal store (received (x ∷ xs)) w h v = goes (h (x ∷ xs) refl)
fetched-Runs fatal store (recv_error e) w h v =
    stops (inl (ground (arith, reset_connection-IsValid w.server v)))

pub fetch-Runs :
    (fatal : Errno → Bool) (n : ℕ) (store : Bytes → Server → Server) (w : World)
    → ((xs : Bytes) → length xs ≤ n → IsValid (store xs w.server))
    → IsValid w.server
    → Runs (fetch fatal n store w)
unfolding fetch
fetch-Runs fatal n store w h v =
    let r = recv n w.inbox in
    fetched-Runs fatal store r.0 (record w { inbox = r.1 }) (λ xs e. h xs (length-recv n w.inbox e))
      v

pub if-Runs :
    (b : Bool) {f g : Flow} → (b ≡ true → Runs f) → (b ≡ false → Runs g) → Runs (if b then f else g)
if-Runs true u v = u refl
if-Runs false u v = v refl

pub when-Runs : (b : Bool) (w : World) → IsValid w.server → Runs (if b then stop w else go w)
when-Runs b w v = if-Runs b (λ _. stops (inl v)) (λ _. goes v)

-- A read of the rest of a short command, where something is missing.
pub top_up_minimal :
    (fatal : Errno → Bool) (w : World)
    → IsValid w.server
    → Runs (
        if ltb w.server.rx.minimal_rx_bytes minimal_size
        then fetch fatal (minimal_size - w.server.rx.minimal_rx_bytes) store_minimal w
        else go w)
top_up_minimal fatal w v =
    if-Runs (ltb w.server.rx.minimal_rx_bytes minimal_size)
      (λ _.
        fetch-Runs fatal (minimal_size - w.server.rx.minimal_rx_bytes) store_minimal w
          (λ xs h. store_minimal-IsValid xs w.server (omega arith) v) v)
      (λ _. goes v)

fetch_packet :
    (fatal : Errno → Bool) (n : ℕ) (w : World)
    → n ≤ vpi_pkt_size - w.server.rx.vpi_rx_bytes
    → IsValid w.server
    → Runs (fetch fatal n store_packet w)
fetch_packet fatal n w l v =
    fetch-Runs fatal n store_packet w (λ xs h. store_packet-IsValid xs w.server (omega arith) v) v

minimal_work-Runs : (w : World) → IsValid w.server → Runs (minimal_work w)
unfolding minimal_work
minimal_work-Runs w v = bind-Runs _ (top_up_minimal tolerant w v) λ w₁ v₁.
    bind-Runs _ (when-Runs (ltb w₁.server.rx.minimal_rx_bytes minimal_size) w₁ v₁)
      λ w₂ v₂. stops (minimal-Good w₂ v₂)

pub first_minimal-Runs : (w : World) → IsValid w.server → Runs (first_minimal w)
unfolding first_minimal
first_minimal-Runs w v = bind-Runs _ (top_up_minimal strict w v) λ w₁ v₁.
    bind-Runs _ (when-Runs (ltb w₁.server.rx.minimal_rx_bytes minimal_size) w₁ v₁)
      λ w₂ v₂. stops (minimal-Good w₂ v₂)

pub first_packet-Runs : (w : World) → IsValid w.server → Runs (first_packet w)
unfolding first_packet
first_packet-Runs w v =
    bind-Runs _
      (if-Runs (ltb w.server.rx.vpi_rx_bytes 8)
        (λ e. fetch_packet strict (8 - w.server.rx.vpi_rx_bytes) w (omega arith) v) (λ _. goes v))
      λ w₁ v₁. bind-Runs _ (when-Runs (ltb w₁.server.rx.vpi_rx_bytes 8) w₁ v₁) λ w₂ v₂.
        bind-Runs _
          (if-Runs (ltb w₂.server.rx.vpi_rx_bytes vpi_pkt_size)
            (λ _.
              fetch_packet strict (vpi_pkt_size - w₂.server.rx.vpi_rx_bytes) w₂ (omega arith) v₂)
            (λ _. goes v₂))
          λ w₃ v₃.
            bind-Runs _ (when-Runs (ltb w₃.server.rx.vpi_rx_bytes vpi_pkt_size) w₃ v₃)
              λ w₄ v₄. stops (packet-Good w₄ v₄)

switch_to_minimal-IsValid : (s : Server) → IsValid s → IsValid (switch_to_minimal s)
unfolding switch_to_minimal
switch_to_minimal-IsValid s v = ground (arith, length-zeros 1036, length-take 8 s.rx.vpi_cmd_rx)

full_mode-IsValid : (s : Server) → IsValid s → IsValid (record s { vpi_minimal_mode = false })
full_mode-IsValid s v = ground arith

peeked-Runs : (r : Recv) (w : World) → IsValid w.server → Runs (peeked r w)
unfolding peeked close_connection
peeked-Runs r w v =
    if-Runs (w.server.rx.vpi_rx_bytes == 8 && no_more r)
      (λ _.
        stops (minimal-Good (on_server switch_to_minimal w) (switch_to_minimal-IsValid w.server v)))
      (λ _.
        if-Runs (peek_failed r) (λ _. stops (inl (reset_connection-IsValid w.server v)))
          (λ _. goes (full_mode-IsValid w.server v)))

detect_follow_on-Runs : (w : World) → IsValid w.server → Runs (detect_follow_on w)
unfolding detect_follow_on
detect_follow_on-Runs w v =
    let r = peek 16 w.inbox in
    if-Runs (leb 8 w.server.rx.vpi_rx_bytes && ltb w.server.rx.vpi_rx_bytes vpi_pkt_size)
      (λ _. peeked-Runs r.0 (record w { inbox = r.1 }) v) (λ _. goes v)

packet_work-Runs : (w : World) → IsValid w.server → Runs (packet_work w)
unfolding packet_work
packet_work-Runs w v =
    bind-Runs _
      (if-Runs (ltb w.server.rx.vpi_rx_bytes 8)
        (λ e. fetch_packet strict (vpi_pkt_size - w.server.rx.vpi_rx_bytes) w (omega arith) v)
        (λ _. goes v))
      λ w₁ v₁. bind-Runs _ (when-Runs (ltb w₁.server.rx.vpi_rx_bytes 8) w₁ v₁) λ w₂ v₂.
        bind-Runs _ (detect_follow_on-Runs w₂ v₂) λ w₃ v₃.
          bind-Runs _
            (if-Runs (not w₃.server.vpi_minimal_mode && ltb w₃.server.rx.vpi_rx_bytes vpi_pkt_size)
              (λ _.
                bind-Runs _
                  (fetch_packet tolerant (vpi_pkt_size - w₃.server.rx.vpi_rx_bytes) w₃ (omega arith)
                    v₃)
                  λ w₄ v₄. when-Runs (ltb w₄.server.rx.vpi_rx_bytes vpi_pkt_size) w₄ v₄)
              (λ _. goes v₃))
            λ w₅ v₅. stops (packet-Good w₅ v₅)

pub receive_work-Runs : (w : World) → IsValid w.server → Runs (receive_work w)
unfolding receive_work
receive_work-Runs w v =
    if-Runs (not w.server.tx.vpi_tx_pending && w.server.connected)
      (λ _.
        if-Runs w.server.vpi_minimal_mode (λ _. minimal_work-Runs w v) (λ _. packet_work-Runs w v))
      (λ _. stops (inl v))
