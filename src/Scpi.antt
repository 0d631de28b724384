-- ===== src/Scpi.antt =====
-- What the services take from the SCPI library and from Qt, and the answers of
-- zenux-service-common/lib/scpi-interfaces/zscpi_response_definitions.cpp.

use zenux_services.Prelude.{ℕ, Bool, Option}
use zenux_services.Prelude.Int.{ℤ}
use zenux_services.Prelude.Text.{Text, codes}

-- The output of a command: an entry of `ZSCPI::scpiAnswer`, or a text of its own. An output that no
-- branch sets is the empty text.
pub data Answer : Type 0 where
  ack nak busy erraut errval errxml errpath errexec : Answer
  value : Text → Answer

unfoldable pub scpi_answer : Answer → Text
scpi_answer ack = codes "ack"
scpi_answer nak = codes "nak"
scpi_answer busy = codes "busy"
scpi_answer erraut = codes "erraut"
scpi_answer errval = codes "errval"
scpi_answer errxml = codes "errxml"
scpi_answer errpath = codes "errpath"
scpi_answer errexec = codes "errexec"
scpi_answer (value s) = s

-- `cSCPICommand` (of the SCPI library) over an input line, and the number parsers of `QString`:
-- `none` is `ok == false`, and `to_ulong` gives what an `unsigned long` holds.
pub record ScpiLib : Type 0 where
  pub is_query : Text → Bool
  pub is_command : Text → ℕ → Bool
  pub get_param : Text → ℕ → Text
  pub get_command_str : Text → Text
  pub to_int : Text → Option ℤ
  pub to_ulong : Text → Option ℕ

-- `ProtonetCommand`: the fields that the handlers read. `type_query` and `type_cmd_p` are the bits
-- `SCPI::isQuery` and `SCPI::isCmdwP` of `m_nSCPIType`.
pub record ProtoCmd : Type 0 where
  pub peer : ℕ
  pub with_output : Bool
  pub client_id : Text
  pub type_query : Bool
  pub type_cmd_p : Bool
  pub input : Text
