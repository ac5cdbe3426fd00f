-- ===== src/Strings/Tests.antt =====
-- A number that is printed and read back.
use sistemas_operativos.Prelude.{arith}
use sistemas_operativos.Strings.{printnum}
use sistemas_operativos.Strings.Numbers.{ReadBack, strtol-printnum}

strtol-printnum_example : ReadBack 16 255 (printnum 255 16 8 b' ')
strtol-printnum_example = strtol-printnum 16 255 8 (omega arith) (omega arith) (omega arith)
