-- ===== src/AsyncLogging/Delivery.antt =====
-- No line is lost or moved on its way to the file, and the thread never takes a buffer from an
-- empty list.
use echo_server.Prelude.{
  ℕ, suc, ◌≡◌, ◌<◌, ◌≤◌, ◌^◌, refl, sym, ap, ◌∙◌, inl, inr, List, [], ◌∷◌, ◌++◌, append_assoc,
  Option, none, some, arith, if◌then◌else◌, ltb, Bool-cases, length, length-append, length-take,
  take,
}
use echo_server.FixedBuffer
use echo_server.FixedBuffer.{FixedBuffer, valid}
use echo_server.FixedBuffer.Contents.{IsValid, contents, reset-IsValid, append-IsValid}
use echo_server.AsyncLogging.{
  AsyncLogging, Backend, spare, append, bytes_of, pop_back, refill, hand_over, round,
}
use echo_server.AsyncLogging.Held.{
  held, kept_line, AllValid, Fresh, Ready, Inv, bytes_of-snoc, AllValid-snoc, AllValid-take,
  append-Fresh, spare-Fresh, append-fits,
}

-- Appending keeps the buffers in order, and puts the line behind all that waits; only a line that
-- is no shorter than a buffer is dropped.
pub append-held :
    (size : ℕ) (line : List ℕ) (l : AsyncLogging) (b : Backend)
    → 0 < size
    → size < 2 ^ 31
    → Inv size l b
    → Inv size (append size line l) b × (held (append size line l) ≡ held l ++ kept_line size line)
unfolding append
append-held size line l b h k v = elim (Bool-cases (valid size l.current (length line))) [
  | inl room ↦ rw room (
    record {
      current_valid = append-IsValid size line v.current_valid;
      buffers_valid = v.buffers_valid;
      next_ready = v.next_ready;
      first_fresh = v.first_fresh;
      second_fresh = v.second_fresh;
    },
    ap (◌++◌ (bytes_of l.buffers)) (append-fits size l.current line v.current_valid room)
        ∙ sym (append_assoc (bytes_of l.buffers) (contents l.current) (kept_line size line)),
  )
  | inr full ↦
      let fresh = spare-Fresh size l.buffers l.next h k v.next_ready in
      rw full (
        record {
          current_valid = append-IsValid size line fresh.0;
          buffers_valid = AllValid-snoc size l.buffers l.current v.buffers_valid v.current_valid;
          next_ready = omega (arith, length-append l.buffers (l.current ∷ []));
          first_fresh = v.first_fresh;
          second_fresh = v.second_fresh;
        },
        ap (λ xs. xs ++ contents (FixedBuffer.append size (spare size l.next) line))
              (bytes_of-snoc l.buffers l.current)
            ∙ ap (◌++◌ (held l)) (append-Fresh size (spare size l.next) line fresh),
      )
]

-- What `pop_back` gives on a list that is not empty.
Popped : ℕ → List FixedBuffer → Option (FixedBuffer × List FixedBuffer) → Type 0
Popped size bs r =
    (last : FixedBuffer) × (rest : List FixedBuffer) × (r ≡ some (last, rest))
    × IsValid size last
    × AllValid size rest
    × (length bs ≡ suc (length rest))

pop_back-Popped :
    (size : ℕ) (bs : List FixedBuffer)
    → AllValid size bs
    → 0 < length bs
    → Popped size bs (pop_back bs)
unfolding pop_back Popped
pop_back-Popped size [] v h = absurd (omega arith)
pop_back-Popped size (x ∷ []) (v, vs) h = (x, [], refl, v, tt, refl)
pop_back-Popped size (x ∷ y ∷ ys) (v, vs) h =
    let (last, rest, e, w, ws, n) = pop_back-Popped size (y ∷ ys) vs (omega arith) in
    (last, x ∷ rest, rw e refl, w, (v, ws), omega arith)

-- What `refill` gives where there is a buffer to take.
Refilled : ℕ → ℕ → Option (FixedBuffer × List FixedBuffer) → Type 0
Refilled size n r =
    (b : FixedBuffer) × (rest : List FixedBuffer) × (r ≡ some (b, rest))
    × Fresh size b
    × AllValid size rest
    × (n ≤ suc (length rest))

refill-none :
    (size : ℕ) (bs : List FixedBuffer)
    → AllValid size bs
    → 0 < length bs
    → Refilled size (length bs) (refill none bs)
unfolding refill FixedBuffer.reset Popped Refilled
refill-none size bs v h =
    let (last, rest, e, w, ws, n) = pop_back-Popped size bs v h in
    (
      FixedBuffer.reset last,
      rest,
      rw (e, refill) refl,
      (reset-IsValid size w, refl),
      ws,
      omega arith,
    )

-- The buffers that a round keeps for the next one, at most two of those that it wrote.
abbrev kept_buffers : List FixedBuffer → List FixedBuffer
kept_buffers bs = if ltb 2 (length bs) then take 2 bs else bs

kept_buffers-AllValid :
    (size : ℕ) (bs : List FixedBuffer) → AllValid size bs → AllValid size (kept_buffers bs)
kept_buffers-AllValid size bs v = elim (Bool-cases (ltb 2 (length bs))) [
  | inl many ↦ rw many (AllValid-take size 2 bs v)
  | inr few ↦ rw few v
]

length-kept_buffers :
    (n : ℕ) (bs : List FixedBuffer) → n ≤ 2 → n ≤ length bs → n ≤ length (kept_buffers bs)
length-kept_buffers n bs h k = elim (Bool-cases (ltb 2 (length bs))) [
  | inl many ↦ rw many (omega (arith, length-take 2 bs))
  | inr few ↦ rw few k
]

-- How many buffers a round takes back.
abbrev needed : Option FixedBuffer → ℕ
needed none = 2
needed (some n) = 1

-- What a round leads to: everything that waited is handed to the file, nothing waits any more, and
-- the buffers are in order.
pub record Written (size : ℕ) (l : AsyncLogging) (b : Backend) (m : AsyncLogging) (c : Backend)
    : Type 0 where
  pub in_order : Inv size m c
  pub output_is : c.output ≡ b.output ++ held l
  pub nothing_waits : held m ≡ []
  pub running_same : m.running ≡ l.running

needed-pos : (next : Option FixedBuffer) → 0 < needed next
needed-pos none = omega arith
needed-pos (some n) = omega arith

needed_lem :
    (size : ℕ) (l : AsyncLogging) (next : Option FixedBuffer)
    → Ready size l.buffers next
    → needed next ≤ length (kept_buffers (l.buffers ++ l.current ∷ []))
needed_lem size l none r =
    let n = length-append l.buffers (l.current ∷ []) in
    length-kept_buffers 2 (l.buffers ++ l.current ∷ []) (omega arith) (omega (arith, n))
needed_lem size l (some n) r =
    let n = length-append l.buffers (l.current ∷ []) in
    length-kept_buffers 1 (l.buffers ++ l.current ∷ []) (omega arith) (omega (arith, n))

-- `nextBuffer_` and `newBuffer2` are both there once the round has given and taken back.
hand_over-Fresh :
    (size : ℕ) (bs rest : List FixedBuffer) (next : Option FixedBuffer) (new2 : FixedBuffer)
    → Ready size bs next
    → Fresh size new2
    → AllValid size rest
    → needed next ≤ suc (length rest)
    → Fresh size (hand_over next new2).0 × Refilled size 0 (refill (hand_over next new2).1 rest)
unfolding hand_over refill Refilled
hand_over-Fresh size bs rest none new2 r f v n =
    let (b, left, e, w, ws, k) = refill-none size rest v (omega arith) in
    (f, (b, left, e, w, ws, omega arith))
hand_over-Fresh size bs rest (some m) new2 r f v n = (r, (new2, rest, refl, f, v, omega arith))

held-Fresh : (b : FixedBuffer) → b.used ≡ 0 → contents b ≡ []
held-Fresh b e = rw e refl

-- With its buffers in order, a round of the thread never takes a buffer from an empty list. It
-- hands over all that waits, in order, leaves nothing waiting, and keeps the buffers in order.
pub round-Written :
    (size : ℕ) (l : AsyncLogging) (b : Backend)
    → Inv size l b
    → (m : AsyncLogging) × (c : Backend) × (round l b ≡ some (m, c)) × Written size l b m c
unfolding round Refilled
round-Written size l b v =
    let all = AllValid-snoc size l.buffers l.current v.buffers_valid v.current_valid in
    let kept = kept_buffers-AllValid size (l.buffers ++ l.current ∷ []) all in
    let enough = needed_lem size l l.next v.next_ready in
    let some_left : 0 < length (kept_buffers (l.buffers ++ l.current ∷ [])) =
      omega (arith, needed-pos l.next) in
    let (first, rest, e, w, ws, n) =
      refill-none size (kept_buffers (l.buffers ++ l.current ∷ [])) kept some_left in
    let (f, (second, left, e2, w2, ws2, n2)) =
      hand_over-Fresh size l.buffers rest l.next b.new_buffer2 v.next_ready v.second_fresh ws
        (omega (arith)) in
    let m : AsyncLogging = record l {
      current = b.new_buffer1;
      next = some (hand_over l.next b.new_buffer2).0;
      buffers = [];
    } in
    let c : Backend = record {
      new_buffer1 = first;
      new_buffer2 = second;
      output = b.output ++ bytes_of (l.buffers ++ l.current ∷ []);
    } in
    (
      m,
      c,
      rw (e, round) (rw e2 refl),
      record {
        in_order = record {
          current_valid = v.first_fresh.0;
          buffers_valid = tt;
          next_ready = f;
          first_fresh = w;
          second_fresh = w2;
        };
        output_is = ap (◌++◌ b.output) (bytes_of-snoc l.buffers l.current);
        nothing_waits = held-Fresh b.new_buffer1 v.first_fresh.1;
        running_same = refl;
      },
    )
