-- ===== src/Bridge/Identify.antt =====
-- `read_idcode` of vpi/jtag_vpi_advanced.cpp on the server of vpi/jtag_vpi.c: the four bytes that
-- the client takes for the IDCODE.
use jtag.Prelude.{◌+◌, ◌*◌, ◌^◌, ◌%◌, ◌≡◌, ◌≢◌, refl, true, arith}
use jtag.Wire.{le32_to_host}
use jtag.Client.{read_idcode}
use jtag.Bridge.{
  Simulator, Bridge, idcode, over, process_vpi_command, store_idcode, read_signal, resp_image,
}

module _ (v : Simulator) where
  open v use {vpi_get_value}

  -- The client never gets the IDCODE of a device, whose lowest bit is 1 by IEEE 1149.1: the lowest
  -- byte of what it reads is the response code 2, the next two are left over from commands before,
  -- and the highest is the lowest byte of the IDCODE, whose other bytes leave the answer.
  pub read_idcode_garbled :
      (b : Bridge v)
      → vpi_get_value idcode b.design % 2 ≡ 1
      → ((read_idcode (over v) b).0
          ≡ 2
            + 256 * b.resp.tdo_val
            + 65536 * b.resp.mode
            + 2 ^ 24 * (vpi_get_value idcode b.design % 256))
        × ((read_idcode (over v) b).0 ≢ vpi_get_value idcode b.design)
        × ((read_idcode (over v) b).1.overrun ≡ true)
  unfolding read_idcode over process_vpi_command store_idcode read_signal resp_image le32_to_host
  read_idcode_garbled b h = (omega arith, λ e. absurd (omega arith), refl)
