-- ===== src/LogPipeline/Files.antt =====
-- What reaches the files.
use echo_server.Prelude.{
  ℕ, ◌+◌, ◌≡◌, refl, sym, ap, ◌∙◌, inl, inr, List, [], ◌∷◌, ◌++◌, append-nil, append_assoc, some,
  arith, ◌==◌, Bool-cases, length,
}
use echo_server.AsyncLogging.{bytes_of}
use echo_server.FixedBuffer.{FixedBuffer}
use echo_server.FixedBuffer.Contents.{contents}
use echo_server.LogFile.{LogFile, append_in_lock}
use echo_server.LogFile.Roll.{Flows, write_all-whole}
use echo_server.LogPipeline.{Disk, Answer, settle, append, append_buffers}

abbrev pub joined : List (List ℕ) → List ℕ
joined [] = []
joined (xs ∷ xss) = xs ++ joined xss

joined-append : (xss yss : List (List ℕ)) → joined (xss ++ yss) ≡ joined xss ++ joined yss
joined-append [] yss = refl
joined-append (xs ∷ xss) yss =
    ap (◌++◌ xs) (joined-append xss yss) ∙ sym (append_assoc xs (joined xss) (joined yss))

-- All files, in the order in which they were opened.
abbrev pub all_bytes : Disk → List ℕ
all_bytes d = joined d.closed ++ d.current

settle-all_bytes :
    (file : LogFile) (out : List ℕ) (d : Disk) → all_bytes (settle file out d) ≡ all_bytes d ++ out
unfolding settle
settle-all_bytes file out d = elim (Bool-cases (file.files == d.file.files)) [
  | inl same ↦ rw same (sym (append_assoc (joined d.closed) d.current out))
  | inr rolled ↦ rw rolled (
      append-nil (joined (d.closed ++ (d.current ++ out) ∷ []))
      ∙ joined-append d.closed ((d.current ++ out) ∷ [])
      ∙ ap (◌++◌ (joined d.closed)) (append-nil (d.current ++ out))
      ∙ sym (append_assoc (joined d.closed) d.current out))
]

append-all_bytes :
    (a : Answer) (bytes : List ℕ) (d : Disk)
    → Flows a.kernel
    → (e : Disk) × (append a bytes d ≡ some e) × (all_bytes e ≡ all_bytes d ++ bytes)
unfolding append
append-all_bytes a bytes d flows =
    let whole = write_all-whole a.kernel (length bytes) 0 bytes flows (omega arith) in
    let file = append_in_lock (length bytes) a.now a.roll_now d.file in
    (settle file bytes d, rw (whole, append) refl, settle-all_bytes file bytes d)

pub append_buffers-all_bytes :
    (answers : ℕ → Answer) (i : ℕ) (bs : List FixedBuffer) (d : Disk)
    → ((k : ℕ) → Flows (answers k).kernel)
    → (e : Disk) × (append_buffers answers i bs d ≡ some e)
      × (all_bytes e ≡ all_bytes d ++ bytes_of bs)
unfolding append_buffers bytes_of
append_buffers-all_bytes answers i [] d flows = (d, refl, sym (append-nil (all_bytes d)))
append_buffers-all_bytes answers i (b ∷ bs) d flows =
    let (e, done, h) = append-all_bytes (answers i) (contents b) d (flows i) in
    let (f, rest, k) = append_buffers-all_bytes answers (i + 1) bs e flows in
    (
      f,
      rw (done, append_buffers) rest,
      k ∙ ap (λ xs. xs ++ bytes_of bs) h ∙ append_assoc (all_bytes d) (contents b) (bytes_of bs),
    )
