-- ===== src/Spiutils/Flash/OpCodeLaws.antt =====
-- The laws of the op codes of flash.rs.
use tock_on_titan.Common.{ℕ, ◌↔◌, All, ◌<◌, ◌≡◌, refl, arith, some}
use tock_on_titan.Spiutils.Wire.{IsWireEnum, Agrees, from_wire_value, from_name, parses_iff}
use tock_on_titan.Spiutils.Flash.OpCodes.{OpCode, op_code}

op_code_from_value : (x : OpCode) → from_wire_value op_code (op_code.to_wire_value x) ≡ some x
unfolding op_code
op_code_from_value OpCode.nop = refl
op_code_from_value OpCode.write_status_register = refl
op_code_from_value OpCode.read_status_register = refl
op_code_from_value OpCode.write_disable = refl
op_code_from_value OpCode.write_enable = refl
op_code_from_value OpCode.write_suspend = refl
op_code_from_value OpCode.write_resume = refl
op_code_from_value OpCode.sector_erase = refl
op_code_from_value OpCode.block_erase_32kb = refl
op_code_from_value OpCode.block_erase_64kb = refl
op_code_from_value OpCode.chip_erase = refl
op_code_from_value OpCode.chip_erase2 = refl
op_code_from_value OpCode.page_program = refl
op_code_from_value OpCode.read_jedec = refl
op_code_from_value OpCode.read_sfdp = refl
op_code_from_value OpCode.normal_read = refl
op_code_from_value OpCode.fast_read = refl
op_code_from_value OpCode.fast_read_4b = refl
op_code_from_value OpCode.fast_read_dual_output = refl
op_code_from_value OpCode.enter_4_byte_address_mode = refl
op_code_from_value OpCode.exit_4_byte_address_mode = refl

from_name-op_code : (x : OpCode) → from_name op_code (op_code.name x) ≡ some x
unfolding op_code
from_name-op_code OpCode.nop = refl
from_name-op_code OpCode.write_status_register = refl
from_name-op_code OpCode.read_status_register = refl
from_name-op_code OpCode.write_disable = refl
from_name-op_code OpCode.write_enable = refl
from_name-op_code OpCode.write_suspend = refl
from_name-op_code OpCode.write_resume = refl
from_name-op_code OpCode.sector_erase = refl
from_name-op_code OpCode.block_erase_32kb = refl
from_name-op_code OpCode.block_erase_64kb = refl
from_name-op_code OpCode.chip_erase = refl
from_name-op_code OpCode.chip_erase2 = refl
from_name-op_code OpCode.page_program = refl
from_name-op_code OpCode.read_jedec = refl
from_name-op_code OpCode.read_sfdp = refl
from_name-op_code OpCode.normal_read = refl
from_name-op_code OpCode.fast_read = refl
from_name-op_code OpCode.fast_read_4b = refl
from_name-op_code OpCode.fast_read_dual_output = refl
from_name-op_code OpCode.enter_4_byte_address_mode = refl
from_name-op_code OpCode.exit_4_byte_address_mode = refl

op_code_is_byte : (x : OpCode) → op_code.to_wire_value x < 256
unfolding op_code
op_code_is_byte OpCode.nop = omega arith
op_code_is_byte OpCode.write_status_register = omega arith
op_code_is_byte OpCode.read_status_register = omega arith
op_code_is_byte OpCode.write_disable = omega arith
op_code_is_byte OpCode.write_enable = omega arith
op_code_is_byte OpCode.write_suspend = omega arith
op_code_is_byte OpCode.write_resume = omega arith
op_code_is_byte OpCode.sector_erase = omega arith
op_code_is_byte OpCode.block_erase_32kb = omega arith
op_code_is_byte OpCode.block_erase_64kb = omega arith
op_code_is_byte OpCode.chip_erase = omega arith
op_code_is_byte OpCode.chip_erase2 = omega arith
op_code_is_byte OpCode.page_program = omega arith
op_code_is_byte OpCode.read_jedec = omega arith
op_code_is_byte OpCode.read_sfdp = omega arith
op_code_is_byte OpCode.normal_read = omega arith
op_code_is_byte OpCode.fast_read = omega arith
op_code_is_byte OpCode.fast_read_4b = omega arith
op_code_is_byte OpCode.fast_read_dual_output = omega arith
op_code_is_byte OpCode.enter_4_byte_address_mode = omega arith
op_code_is_byte OpCode.exit_4_byte_address_mode = omega arith

op_code_arms : All (Agrees op_code) (op_code.arms)
unfolding op_code
op_code_arms = (
  (refl, refl),
  (
    (refl, refl),
    (
      (refl, refl),
      (
        (refl, refl),
        (
          (refl, refl),
          (
            (refl, refl),
            (
              (refl, refl),
              (
                (refl, refl),
                (
                  (refl, refl),
                  (
                    (refl, refl),
                    (
                      (refl, refl),
                      (
                        (refl, refl),
                        (
                          (refl, refl),
                          (
                            (refl, refl),
                            (
                              (refl, refl),
                              (
                                (refl, refl),
                                (
                                  (refl, refl),
                                  (
                                    (refl, refl),
                                    ((refl, refl), ((refl, refl), ((refl, refl), tt))),
                                  ),
                                ),
                              ),
                            ),
                          ),
                        ),
                      ),
                    ),
                  ),
                ),
              ),
            ),
          ),
        ),
      ),
    ),
  ),
)

-- Every op code reads back from its wire value and from its name, and its wire value is a byte.
pub OpCode-IsWireEnum : IsWireEnum op_code
OpCode-IsWireEnum = record {
  from_value = op_code_from_value;
  from_own_name = from_name-op_code;
  value_is_byte = op_code_is_byte;
  arms_agree = op_code_arms;
}

-- A wire value parses as an op code of SPI flash exactly when that op code is written as the value.
pub op_code_parses_iff :
    (wire : ℕ) (x : OpCode)
    → (from_wire_value op_code wire ≡ some x) ↔ (op_code.to_wire_value x ≡ wire)
op_code_parses_iff wire x = parses_iff OpCode-IsWireEnum wire x
