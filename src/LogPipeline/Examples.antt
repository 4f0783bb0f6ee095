-- ===== src/LogPipeline/Examples.antt =====
-- Two lines with a round of the thread between them, on a stream that takes one byte of each call.
use echo_server.Prelude.{ℕ, ◌+◌, ◌≡◌, ◌++◌, refl, false, [], List, ◌∷◌, some, arith}
use echo_server.Logger.{Logger, info}
use echo_server.Logger.Examples.{last_words, last_words-IsValid}
use echo_server.LogFile.Examples.{file}
use echo_server.LogFile.Roll.{Flows}
use echo_server.LogPipeline.{Disk, Answer, Log, Event, ended, written, step, run, begin}
use echo_server.LogPipeline.Files.{all_bytes}
use echo_server.LogPipeline.Whole.{lines, Runs, AllRun, run-all_bytes}

abbrev quiet : Logger
quiet = record last_words { level = info }

abbrev answers : ℕ → Answer
answers k = record { kernel = λ calls n. (1, false); now = 90001 + k; roll_now = 90001 + k }

answers-Flows : (k : ℕ) → Flows (answers k).kernel
answers-Flows k = λ calls n h. (omega arith, h, refl)

abbrev disk : Disk
disk = record { file = file; closed = []; current = [] }

abbrev events : List Event
events = ended quiet ∷ written answers ∷ ended quiet ∷ []

quiet-Runs : Runs (ended quiet)
quiet-Runs = (last_words-IsValid, omega arith, refl)

events-AllRun : AllRun events
events-AllRun = (quiet-Runs, (answers-Flows, (quiet-Runs, tt)))

run-all_bytes_example :
    (g h : Log) × (run 4096 events (begin 4096 disk) ≡ some g)
    × (step 4096 (written answers) g ≡ some h)
    × (all_bytes h.disk ≡ all_bytes disk ++ lines events)
run-all_bytes_example =
    run-all_bytes 4096 (omega arith) (omega arith) events answers disk events-AllRun answers-Flows
