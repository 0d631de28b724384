-- ===== src/Tests/Words.antt =====
-- Runs of the command table and of the command words.
use zenux_services.Prelude.{◌/◌, ◌%◌, ◌^◌, ◌≡◌, false, [], ◌∷◌, arith}
use zenux_services.Prelude.Text.{codes}
use zenux_services.Dsp.Table.{DspCmdDecodingDetails, cmd_2i16}
use zenux_services.Dsp.Words.{compiled_3, compiled_cmd, stream, word_of, stream-compiled_3}

abbrev rms : DspCmdDecodingDetails
rms = record { name = codes "RMS"; cmd_code = 7; cmd_class = cmd_2i16; modify = false }

-- "COPYDATA" with three parameters, and "INVALID" behind it.
stream_of_three_params :
    let bytes = stream (compiled_3 3 0x10 0xFFFF 0x20 ∷ compiled_cmd 0 ∷ []) in
    (word_of bytes 0 / 2 ^ 16 ≡ 3)
    × (word_of bytes 0 % 2 ^ 16 ≡ 0x10)
    × (word_of bytes 4 / 2 ^ 16 ≡ 0xFFFF)
    × (word_of bytes 4 % 2 ^ 16 ≡ 0x20)
stream_of_three_params =
    stream-compiled_3 3 0x10 0xFFFF 0x20 (compiled_cmd 0 ∷ []) (omega arith) (omega arith)
      (omega arith) (omega arith)
