-- ===== src/LogStream/Examples.antt =====
-- Numbers of both signs on a short line.
use echo_server.Prelude.{◌≡◌, ◌++◌, refl, [], some, arith}
use echo_server.FixedBuffer
use echo_server.FixedBuffer.{FixedBuffer}
use echo_server.FixedBuffer.Contents.{IsValid, contents, init-IsValid}
use echo_server.LogStream.{pos, negsuc, format_integer, put_text, back_digits}
use echo_server.LogStream.Printed.{printed, format_integer-printed}

abbrev line : FixedBuffer
line = FixedBuffer.init 40

line-IsValid : IsValid 40 line
line-IsValid = init-IsValid 40 (omega arith) (omega arith)

format_integer-printed_example :
    (c : FixedBuffer) × (format_integer 40 line (negsuc 122) ≡ some c)
    × IsValid 40 c
    × (contents c ≡ contents line ++ printed (negsuc 122))
unfolding FixedBuffer.init
format_integer-printed_example =
    format_integer-printed 40 line (negsuc 122) line-IsValid (omega arith) (omega arith)

-- Zero leaves the line empty.
zero_is_lost : (c : FixedBuffer) × (format_integer 40 line (pos 0) ≡ some c) × (contents c ≡ [])
unfolding format_integer put_text FixedBuffer.init FixedBuffer.add back_digits
zero_is_lost = (_, refl, refl)
