-- ===== src/Core.antt =====
-- as_smpp_init and as_smpp_fini of src/as-smpp-core/src/core.c.
use as_smpp.Types.{ErrorCode}
use as_smpp.Net.{net_init}
use as_smpp.Converter
use as_smpp.Converter.{Tables}

-- as_smpp_init: the error code, and the tables of the converter. The result of as_smpp_net_init is not
-- looked at.
unfoldable pub init : ErrorCode × Tables
init = let ignored = net_init in (ErrorCode.none, Converter.init)

-- as_smpp_fini: as_smpp_converter_fini and, for POSIX, as_smpp_net_fini do nothing.
unfoldable pub fini : ErrorCode
fini = ErrorCode.none
