-- ===== src/LogPipeline/Whole.antt =====
-- Every line reaches the files, whole and in order.
use echo_server.Prelude.{
  ℕ, ◌≤◌, ◌<◌, ◌^◌, ◌≡◌, refl, sym, ap, ◌∙◌, false, List, [], ◌∷◌, ◌++◌, Bool, Option, append-nil,
  append_assoc, none, some, arith,
}
use echo_server.AsyncLogging
use echo_server.AsyncLogging.{AsyncLogging, Backend, bytes_of}
use echo_server.AsyncLogging.Held.{held, Inv, init-Inv, bytes_of-append}
use echo_server.AsyncLogging.Delivery.{round-Written}
use echo_server.FixedBuffer
use echo_server.FixedBuffer.{small_buffer_size}
use echo_server.FixedBuffer.Contents.{IsValid, contents}
use echo_server.LogFile.Roll.{Flows}
use echo_server.Logger
use echo_server.Logger.{Logger, is_fatal}
use echo_server.Logger.Delivery.{destroy-held}
use echo_server.LogPipeline.{Disk, Answer, Log, Event, ended, written, step, run, begin}
use echo_server.LogPipeline.Files.{all_bytes, append_buffers-all_bytes}

-- The bytes that a destructor hands over, and those of all destructors.
abbrev pub handed : Option (List ℕ × Bool) → List ℕ
handed none = []
handed (some (out, aborts)) = out

abbrev pub output : Logger → List ℕ
output l = handed (Logger.destroy l)

abbrev pub lines : List Event → List ℕ
lines [] = []
lines (ended l ∷ es) = output l ++ lines es
lines (written answers ∷ es) = lines es

-- A line whose stream is in order and whose level is not FATAL, and a round whose stream has no
-- error.
abbrev pub Runs : Event → Type 0
Runs (ended l) = IsValid small_buffer_size l.stream × (l.line < 2 ^ 64) × (is_fatal l.level ≡ false)
Runs (written answers) = (k : ℕ) → Flows (answers k).kernel

abbrev pub AllRun : List Event → Type 0
AllRun [] = Unit {0}
AllRun (e ∷ es) = Runs e × AllRun es

-- What is in the files or on its way to them.
abbrev pub logged : Log → List ℕ
logged g = all_bytes g.disk ++ held g.front

module _ (size : ℕ) (large : small_buffer_size ≤ size) (small : size < 2 ^ 31) where
  written-logged :
      (answers : ℕ → Answer) (g : Log)
      → Inv size g.front g.back
      → ((k : ℕ) → Flows (answers k).kernel)
      → (h : Log) × (step size (written answers) g ≡ some h)
        × Inv size h.front h.back
        × (all_bytes h.disk ≡ logged g)
        × (held h.front ≡ [])
  unfolding step bytes_of
  written-logged answers g v flows =
      let (a, b, made, w) = round-Written size g.front g.back v in
      let (d, done, h) =
        append_buffers-all_bytes answers 0 (g.front.buffers ++ g.front.current ∷ []) g.disk flows in
      (
        record { front = a; back = b; disk = d },
        rw (made, step) (rw done refl),
        w.in_order,
        h
            ∙ ap (◌++◌ (all_bytes g.disk)) (
                bytes_of-append g.front.buffers (g.front.current ∷ [])
                ∙ ap (◌++◌ (bytes_of g.front.buffers)) (append-nil (contents g.front.current))),
        w.nothing_waits,
      )

  ended-logged :
      (l : Logger) (g : Log)
      → Inv size g.front g.back
      → Runs (ended l)
      → (h : Log) × (step size (ended l) g ≡ some h)
        × Inv size h.front h.back
        × (logged h ≡ logged g ++ lines (ended l ∷ []))
  unfolding step
  ended-logged l g v (valid, line, goes_on) =
      let (out, a, made, put, w, grown) =
        destroy-held size l g.front g.back large small valid line v in
      (
        record g { front = a },
        rw (made, step) (rw (put) (rw (goes_on) refl)),
        w,
        ap (◌++◌ (all_bytes g.disk)) grown
            ∙ sym (append_assoc (all_bytes g.disk) (held g.front) out)
            ∙ ap (◌++◌ (logged g)) (sym (ap handed made) ∙ sym (append-nil (output l))),
      )

  run-logged :
      (es : List Event) (g : Log)
      → Inv size g.front g.back
      → AllRun es
      → (h : Log) × (run size es g ≡ some h)
        × Inv size h.front h.back
        × (logged h ≡ logged g ++ lines es)
  unfolding run
  run-logged [] g v t = (g, refl, v, sym (append-nil (logged g)))
  run-logged (ended l ∷ es) g v (t, ts) =
      let (h, done, w, e) = ended-logged l g v t in
      let (k, rest, u, f) = run-logged es h w ts in
      let out = output l in
      (
        k,
        rw (done, run) rest,
        u,
        f
            ∙ ap (λ xs. xs ++ lines es) (e ∙ ap (◌++◌ (logged g)) (append-nil out))
            ∙ append_assoc (logged g) out (lines es),
      )
  run-logged (written answers ∷ es) g v (t, ts) =
      let (h, done, w, e, none_left) = written-logged answers g v t in
      let (k, rest, u, f) = run-logged es h w ts in
      (
        k,
        rw (done, run) rest,
        u,
        f
            ∙ ap (λ xs. xs ++ lines es)
                (ap (◌++◌ (all_bytes h.disk)) none_left ∙ append-nil (all_bytes h.disk) ∙ e),
      )

  begin-Inv : (d : Disk) → Inv size (begin size d).front (begin size d).back
  unfolding begin AsyncLogging.start
  begin-Inv d =
      let v = init-Inv size (omega arith) small in
      record {
        current_valid = v.current_valid;
        buffers_valid = v.buffers_valid;
        next_ready = v.next_ready;
        first_fresh = v.first_fresh;
        second_fresh = v.second_fresh;
      }

  begin-logged : (d : Disk) → logged (begin size d) ≡ all_bytes d
  unfolding begin AsyncLogging.start AsyncLogging.init bytes_of FixedBuffer.init
  begin-logged d = append-nil (all_bytes d)

  -- From the start of the log, with buffers of at least 4096 and fewer than 2^31 bytes, let lines
  -- whose streams are in order and whose level is not FATAL end, and rounds be made whose streams
  -- have no error, in any order. None of this fails, and after one more such round the files hold,
  -- one behind the other, what they held before and then all that the destructors of the lines
  -- handed over, in order.
  pub run-all_bytes :
      (es : List Event) (answers : ℕ → Answer) (d : Disk)
      → AllRun es
      → ((k : ℕ) → Flows (answers k).kernel)
      → (g h : Log) × (run size es (begin size d) ≡ some g)
        × (step size (written answers) g ≡ some h)
        × (all_bytes h.disk ≡ all_bytes d ++ lines es)
  run-all_bytes es answers d t flows =
      let (g, done, v, e) = run-logged es (begin size d) (begin-Inv d) t in
      let (h, last, _, f, _) = written-logged answers g v flows in
      (g, h, done, last, f ∙ e ∙ ap (λ xs. xs ++ lines es) (begin-logged d))
