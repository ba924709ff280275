-- ===== src/Client.antt =====
-- The client of vpi/jtag_vpi_advanced.cpp: what it sends for each operation and what it makes of
-- the answers. The connection is a parameter: `exchange` sends four bytes and receives four, and
-- answers `none` where `send` or `recv` fails. Printing is left out; Client/Connect has connecting.
pub mod Shift
pub mod Collect
pub mod Connect
pub mod Plain
pub mod Main
use Prim.Native.Nat.{bit_or}
use jtag.Prelude.{
  length, leb, ◌||◌, ℕ, zero, suc, ◌+◌, ◌-◌, ◌/◌, ◌%◌, ◌*◌, ◌^◌, ◌≤◌, ◌<◌, ◌≡◌, refl, Bool, true,
  false, List, [], ◌∷◌, Option, some, none, get_or, set, bit_at, replicate, map, ◌++◌, u8, ◌==◌,
  if◌then◌else◌, arith,
}
use jtag.Wire.{Bytes, le32_to_host}

-- `jtag_cmd_t`: the command, TMS, TDI and the padding, which carries the mode.
unfoldable pub jtag_cmd : ℕ → ℕ → ℕ → ℕ → Bytes
jtag_cmd cmd tms_val tdi_val pad = cmd ∷ tms_val ∷ tdi_val ∷ pad ∷ []

abbrev pub is_some : {A : Type 0} → Option A → Bool
is_some (some _) = true
is_some none = false

-- `resp.tdo_val`
abbrev tdo_of : Option Bytes → Option ℕ
tdo_of none = none
tdo_of (some r) = some (get_or r 1 0)

-- `resp.mode`
abbrev mode_of : Option Bytes → Option ℕ
mode_of none = none
mode_of (some r) = some (get_or r 2 0)

-- The fields that `display_idcode` prints.
pub record Idcode : Type 0 where
  pub version : ℕ
  pub partnum : ℕ
  pub mfg_id : ℕ
  pub fixed : ℕ

unfoldable pub display_idcode : ℕ → Idcode
display_idcode idcode = record {
  version = idcode / 2 ^ 28 % 16;
  partnum = idcode / 2 ^ 12 % 65536;
  mfg_id = idcode / 2 % 2048;
  fixed = idcode % 2;
}

-- `result[i / 8] |= tdo << (i % 8)`, where the caller wants the bits.
unfoldable pub stored : ℕ → ℕ → Option Bytes → Option Bytes
stored i tdo none = none
stored i tdo (some buf) =
    some (set buf (i / 8) (bit_or (get_or buf (i / 8) 0) (u8 (tdo * 2 ^ (i % 8)))))

-- Whether byte `i / 8` is not in the data, or not in the caller's buffer.
abbrev pub read_outside : Bytes → ℕ → Bool
read_outside bytes i = leb (length bytes) (i / 8)

abbrev pub store_outside : Option Bytes → ℕ → Bool
store_outside none i = false
store_outside (some buf) i = leb (length buf) (i / 8)

module _ {L : Type 0} (exchange : Bytes → L → Option Bytes × L) where
  -- `none` is the result -1.
  unfoldable pub send_tco : ℕ → ℕ → L → Option ℕ × L
  unfolding jtag_cmd
  send_tco tms tdi l = let (r, l') = exchange (jtag_cmd 1 (tms % 2) (tdi % 2) 0) l in (tdo_of r, l')

  -- Whether all went well.
  unfoldable pub pulse_tck : ℕ → L → Bool × L
  pulse_tck zero l = (true, l)
  pulse_tck (suc n) l =
      let (r, l') = send_tco 0 0 l in elim r [ some _ ↦ pulse_tck n l' | none ↦ (false, l') ]

  -- The bits from `i` on, `n` of them; the last has TMS high. The Boolean is the fault: whether a
  -- read of the data or a store into the caller's buffer has left the array, which C++ leaves
  -- undefined; the model then reads 0 or stores nothing and goes on.
  unfoldable pub shift_bits : Bytes → ℕ → ℕ → Option Bytes → L → Option (Option Bytes) × Bool × L
  unfolding stored
  shift_bits bytes i zero result l = (some result, false, l)
  shift_bits bytes i (suc n) result l =
      let (r, l') =
        send_tco (if n == 0 then 1 else 0) (bit_at (get_or bytes (i / 8) 0) (i % 8)) l in
      elim r [
        | some tdo ↦
            let (out, fault, last) = shift_bits bytes (i + 1) n (stored i tdo result) l' in
            (out, read_outside bytes i || store_outside result i || fault, last)
        | none ↦ (none, read_outside bytes i, l')
      ]

  unfoldable pub shift_data : Bytes → ℕ → Option Bytes → L → Option (Option Bytes) × Bool × L
  shift_data bytes bits result l = shift_bits bytes 0 bits result l

  -- The loop of `reset_tap`, which holds TMS high.
  unfoldable pub hold_tms : ℕ → L → Bool × L
  hold_tms zero l = (true, l)
  hold_tms (suc n) l =
      let (r, l') = send_tco 1 0 l in elim r [ some _ ↦ hold_tms n l' | none ↦ (false, l') ]

  unfoldable pub reset_tap : L → Bool × L
  reset_tap l =
      let (r, l') = hold_tms 5 l in
      elim r [ true ↦ (let (q, l'') = send_tco 0 0 l' in (is_some q, l'')) | false ↦ (false, l') ]

  -- 0 where the exchange fails.
  unfoldable pub read_idcode : L → ℕ × L
  unfolding jtag_cmd
  read_idcode l =
      let (r, l') = exchange (jtag_cmd 2 0 0 0) l in
      elim r [ some a ↦ (le32_to_host a, l') | none ↦ (0, l') ]

  unfoldable pub set_client_mode : ℕ → L → Bool × L
  unfolding jtag_cmd
  set_client_mode mode l = let (r, l') = exchange (jtag_cmd 4 0 0 (mode % 2)) l in (is_some r, l')

  -- `get_mode`; the three bytes that it does not set are whatever `rest` holds.
  unfoldable pub get_mode : Bytes → L → Option ℕ × L
  get_mode rest l = let (r, l') = exchange (3 ∷ rest) l in (mode_of r, l')
