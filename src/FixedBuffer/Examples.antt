-- ===== src/FixedBuffer/Examples.antt =====
-- A small log buffer at work.
use echo_server.Prelude.{ℕ, List, [], ◌∷◌, arith}
use echo_server.FixedBuffer.{FixedBuffer, init, append}
use echo_server.FixedBuffer.Contents.{IsValid, init-IsValid, append-IsValid}

-- A buffer of eight bytes that holds three.
abbrev three : FixedBuffer
three = append 8 (init 8) (1 ∷ 2 ∷ 3 ∷ [])

three-IsValid : IsValid 8 three
three-IsValid = append-IsValid 8 (1 ∷ 2 ∷ 3 ∷ []) (init-IsValid 8 (omega arith) (omega arith))

abbrev two_bytes : List ℕ
two_bytes = 4 ∷ 5 ∷ []

append-IsValid_fixed_example : IsValid 8 (append 8 three two_bytes)
append-IsValid_fixed_example = append-IsValid 8 two_bytes three-IsValid
