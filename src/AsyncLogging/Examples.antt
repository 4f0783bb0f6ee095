-- ===== src/AsyncLogging/Examples.antt =====
-- A log with buffers of four bytes, which hold three.
use echo_server.Prelude.{◌≡◌, ◌++◌, refl, [], ◌∷◌, some, arith}
use echo_server.FixedBuffer
use echo_server.AsyncLogging.{AsyncLogging, Backend, init, init_backend, start, append, round}
use echo_server.AsyncLogging.Held.{held, Inv}
use echo_server.AsyncLogging.Life.{Reach, started, logged, Reach-Delivered}

-- Two lines that share no buffer, and one that is too long.
abbrev busy : AsyncLogging
busy =
    append 4 (5 ∷ 6 ∷ 7 ∷ 8 ∷ []) (append 4 (3 ∷ 4 ∷ []) (append 4 (1 ∷ 2 ∷ []) (start (init 4))))

busy-Reach : Reach 4 busy (init_backend 4) ((1 ∷ 2 ∷ []) ∷ (3 ∷ 4 ∷ []) ∷ (5 ∷ 6 ∷ 7 ∷ 8 ∷ []) ∷ [])
busy-Reach = logged (5 ∷ 6 ∷ 7 ∷ 8 ∷ []) (logged (3 ∷ 4 ∷ []) (logged (1 ∷ 2 ∷ []) started))

Reach-Delivered_example :
    Inv 4 busy (init_backend 4) × ((init_backend 4).output ++ held busy ≡ 1 ∷ 2 ∷ 3 ∷ 4 ∷ [])
Reach-Delivered_example = Reach-Delivered (omega arith) (omega arith) busy-Reach

busy-Inv : Inv 4 busy (init_backend 4)
busy-Inv = Reach-Delivered_run.0
  where
    Reach-Delivered_run :
        Inv 4 busy (init_backend 4) × ((init_backend 4).output ++ held busy ≡ 1 ∷ 2 ∷ 3 ∷ 4 ∷ [])
    Reach-Delivered_run = Reach-Delivered (omega arith) (omega arith) busy-Reach

round_writes :
    (m : AsyncLogging) × (c : Backend) × (round busy (init_backend 4) ≡ some (m, c))
    × (c.output ≡ 1 ∷ 2 ∷ 3 ∷ 4 ∷ [])
unfolding round append start init init_backend FixedBuffer.init FixedBuffer.append
round_writes = (_, _, refl, refl)
