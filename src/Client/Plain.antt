-- ===== src/Client/Plain.antt =====
-- The client of vpi/jtag_vpi_client.c, on the same kind of connection as the advanced one.
use jtag.Prelude.{
  ℕ, zero, suc, ◌+◌, ◌≡◌, refl, Bool, true, false, List, [], ◌∷◌, Option, some, none, get_or, ltb,
  if◌then◌else◌, arith,
}
use jtag.Wire.{Bytes, le32_to_host}
use jtag.Client.Connect.{retry, connect_to_vpi}
use jtag.Client.{jtag_cmd, send_tco, hold_tms, reset_tap, read_idcode}

-- The loop of `jtag_vpi_connect`, with the results of the calls of `connect` to come.
unfoldable pub connect_loop : ℕ → List Bool → Bool
connect_loop retries [] = false
connect_loop retries (r ∷ rs) = elim (ltb retries 10) [
  | true ↦ elim r [ true ↦ true | false ↦ connect_loop (retries + 1) rs ]
  | false ↦ false
]

-- Whether the result is 0.
unfoldable pub jtag_vpi_connect : Bool → List Bool → Bool
unfolding connect_loop
jtag_vpi_connect socket_made rs = elim socket_made [ true ↦ connect_loop 0 rs | false ↦ false ]

connect_loop-retry : (k : ℕ) (rs : List Bool) → connect_loop k rs ≡ (retry k rs).0
unfolding connect_loop retry
connect_loop-retry k [] = refl
connect_loop-retry k (r ∷ rs) = ground (arith, connect_loop-retry (k + 1) rs)

connect-agrees :
    (socket_made : Bool) (rs : List Bool)
    → jtag_vpi_connect socket_made rs ≡ (connect_to_vpi socket_made rs).0
unfolding jtag_vpi_connect connect_to_vpi
connect-agrees true rs = connect_loop-retry 0 rs
connect-agrees false rs = refl

-- `resp.response` and what is stored through `tdo`.
abbrev pub code_and_tdo : Option Bytes → Option (ℕ × ℕ)
code_and_tdo none = none
code_and_tdo (some r) = some (get_or r 0 0, get_or r 1 0)

module _ {L : Type 0} (exchange : Bytes → L → Option Bytes × L) where
  -- `none` is the result -1, which leaves `tdo` alone.
  unfoldable pub jtag_vpi_send_cmd : ℕ → ℕ → ℕ → L → Option (ℕ × ℕ) × L
  unfolding jtag_cmd
  jtag_vpi_send_cmd cmd tms tdi l =
      let (r, l') = exchange (jtag_cmd cmd tms tdi 0) l in (code_and_tdo r, l')

  unfoldable pub jtag_read_idcode : L → ℕ × L
  unfolding jtag_cmd
  jtag_read_idcode l =
      let (r, l') = exchange (jtag_cmd 2 0 0 0) l in
      elim r [ some a ↦ (le32_to_host a, l') | none ↦ (0, l') ]

  -- The loop of test 1 of `main`, which does not look at the results.
  unfoldable pub send_resets : ℕ → L → L
  unfolding jtag_vpi_send_cmd
  send_resets zero l = l
  send_resets (suc n) l = send_resets n (jtag_vpi_send_cmd 1 1 0 l).1

  unfoldable pub reset_test : L → L
  unfolding jtag_vpi_send_cmd
  reset_test l = (jtag_vpi_send_cmd 1 0 0 (send_resets 5 l)).1

  -- Test 3 of `main`; the three bytes that it does not set are whatever `rest` holds.
  unfoldable pub mode_test : Bytes → L → L
  mode_test rest l = (exchange (3 ∷ rest) l).1

  -- The exchanges of `main`.
  unfoldable pub main_exchanges : Bytes → L → ℕ × L
  unfolding reset_test jtag_read_idcode mode_test
  main_exchanges rest l =
      let (idcode, l') = jtag_read_idcode (reset_test l) in (idcode, mode_test rest l')

  -- `main`, by what `socket` and `connect` return: its exit code and what it leaves.
  unfoldable pub plain_main : Bool → List Bool → Bytes → L → ℕ × L
  unfolding jtag_vpi_connect main_exchanges
  plain_main socket_made rs rest l =
      if jtag_vpi_connect socket_made rs then (0, (main_exchanges rest l).1) else (1, l)

  send_resets-hold_tms :
      (n : ℕ) (l : L)
      → (hold_tms exchange n l).0 ≡ true
      → send_resets n l ≡ (hold_tms exchange n l).1
  unfolding send_resets hold_tms send_tco jtag_vpi_send_cmd jtag_cmd
  send_resets-hold_tms zero l h = refl
  send_resets-hold_tms (suc n) l h =
      ground (arith, send_resets-hold_tms n (exchange (1 ∷ 1 ∷ 0 ∷ 0 ∷ []) l).1)

  -- The two clients do the same: they connect in the same cases, whatever `socket` and the calls of
  -- `connect` return; and on every connection on which the reset of the advanced client succeeds,
  -- test 1 of the plain client leaves it in the same state, so that it has exchanged the same
  -- commands, and both read the same IDCODE in the same way.
  pub clients_agree :
      (socket_made : Bool) (rs : List Bool) (l : L)
      → (reset_tap exchange l).0 ≡ true
      → (jtag_vpi_connect socket_made rs ≡ (connect_to_vpi socket_made rs).0)
        × (reset_test l ≡ (reset_tap exchange l).1)
        × (jtag_read_idcode l ≡ read_idcode exchange l)
  unfolding reset_test reset_tap jtag_vpi_send_cmd send_tco jtag_cmd jtag_read_idcode read_idcode
  clients_agree socket_made rs l h =
      (connect-agrees socket_made rs, ground (arith, send_resets-hold_tms 5 l), ground arith)
