-- ===== src/Crc/Examples.antt =====
-- Checksums of short inputs.
use lightkv.Prelude.{◌≡◌, arith, get_or}
use lightkv.Crc.{crc_table}
use lightkv.Crc.Laws.{divide_bits, crc_table-divide_bits}

crc_table-divide_bits_example : get_or crc_table 200 0 ≡ divide_bits 8 200
crc_table-divide_bits_example = crc_table-divide_bits 200 (omega arith)
