-- ===== src/Io/LookAhead/Session.antt =====
-- What a client of a look-ahead stream sees: a list of bytes and a position in it.
use bas_cpp.Prelude.{
  ℕ, ◌+◌, ◌^◌, ◌≤◌, ◌<◌, ◌≡◌, ◌⊎◌, inl, inr, ap, Option, none, some, List, [], ◌∷◌, ◌++◌, arith,
  length, drop, Bytes,
}
use bas_cpp.Io.RawStream.{RawStream}
use bas_cpp.Io.LookAhead.{LookAhead, read, read_block, look_ahead, look_ahead_block, skip}
use bas_cpp.Io.LookAhead.View.{IsOpen, view, first_of}
use bas_cpp.Io.LookAhead.Reads.{IsByteRead, read-IsByteRead, look_ahead-Looks}
use bas_cpp.Io.LookAhead.Blocks.{read_block-IsBlockRead, look_ahead_block-Looks}
use bas_cpp.Io.LookAhead.Moves.{skip-IsSkipped}

-- The calls of a client, and what they answer.
pub data Call : Type 0 where
  read_one : Call
  read_many : ℕ → Call
  look : Call
  skip_over : ℕ → Call
  look_far : ℕ → Call

pub data Reply : Type 0 where
  byte : Option ℕ → Reply
  bytes : Bytes → Reply
  count : ℕ → Reply

-- What a call may answer where `xs` is left to read: then `ys` is left, `n` bytes further on.
pub data Answers (xs : Bytes) : Call → Reply → Bytes → ℕ → Type 0 where
  next_byte : (b : ℕ) (ys : Bytes) → xs ≡ b ∷ ys → Answers xs read_one (byte (some b)) ys 1
  no_byte : (ys : Bytes) → xs ≡ [] → ys ≡ [] → Answers xs read_one (byte none) ys 0
  block :
      (n : ℕ) (out ys : Bytes)
      → xs ≡ out ++ ys
      → length out ≤ n
      → (length out ≡ n) ⊎ (ys ≡ [])
      → Answers xs (read_many n) (bytes out) ys (length out)
  looked : (ys : Bytes) → ys ≡ xs → Answers xs look (byte (first_of xs)) ys 0
  skipped :
      (n k : ℕ) (ys : Bytes)
      → k ≤ n
      → k ≤ length xs
      → ys ≡ drop k xs
      → Answers xs (skip_over n) (count k) ys k
  looked_far :
      (n : ℕ) (out ys zs : Bytes)
      → ys ≡ xs
      → xs ≡ out ++ zs
      → length out ≤ n
      → (0 < n → out ≡ [] → xs ≡ [])
      → Answers xs (look_far n) (bytes out) ys 0

-- One call after the other.
pub data Session : Bytes → List Call → List Reply → Bytes → ℕ → Type 0 where
  over : (xs : Bytes) → Session xs [] [] xs 0
  then :
      (xs ys zs : Bytes) (c : Call) (cs : List Call) (a : Reply) (rs : List Reply) (m n : ℕ)
      → Answers xs c a ys m
      → Session ys cs rs zs n
      → Session xs (c ∷ cs) (a ∷ rs) zs (m + n)

-- The bytes that a call may have in the buffer.
abbrev pub reach : Call → ℕ
reach read_one = 1
reach (read_many n) = n
reach look = 1
reach (skip_over n) = n
reach (look_far n) = n

abbrev pub reach_all : List Call → ℕ
reach_all [] = 0
reach_all (c ∷ cs) = reach c + reach_all cs

-- A look-ahead stream keeps to what it shows: it is open, with its index within reach, and `n` bytes on.
record Keeps {S : Type 0} (r : RawStream S) (a : LookAhead S) (c : Call) (x : Reply × LookAhead S)
    : Type 0 where
  is_open : IsOpen x.1
  moves : x.1.pos ≤ a.pos + reach c
  answers : (n : ℕ) × Answers (view r a) c x.0 (view r x.1) n × (x.1.position ≡ a.position + n)

module _ {S : Type 0} (r : RawStream S) where
  -- The operation of a call.
  pub perform : LookAhead S → Call → Reply × LookAhead S
  perform a read_one = let (b, c) = read r a in (byte b, c)
  perform a (read_many n) = let (out, c) = read_block r a n in (bytes out, c)
  perform a look = let (b, c) = look_ahead r a in (byte b, c)
  perform a (skip_over n) = let (k, c) = skip r a n in (count k, c)
  perform a (look_far n) = let (out, c) = look_ahead_block r a n in (bytes out, c)

  pub perform_all : LookAhead S → List Call → List Reply × LookAhead S
  perform_all a [] = ([], a)
  perform_all a (c ∷ cs) =
      let (reply, b) = perform a c in let (replies, d) = perform_all b cs in (reply ∷ replies, d)

  read-Keeps :
      (a : LookAhead S) (x : Option ℕ × LookAhead S)
      → IsByteRead r a x
      → Keeps r a read_one (byte x.0, x.1)
  read-Keeps a (answer, b) h = record {
    is_open = h.is_open;
    moves = h.moves;
    answers = elim h.answer [
      | inl (e, empty, still, place) ↦
          rw e (0, no_byte (view r b) empty still, omega (arith, place))
      | inr (v, e, there, place, _) ↦ rw e (1, next_byte v (view r b) there, place)
    ];
  }

  perform-Keeps :
      (a : LookAhead S) (c : Call) → IsOpen a → a.pos + reach c ≤ 2 ^ 63 → Keeps r a c (perform a c)
  unfolding perform
  perform-Keeps a read_one h small = read-Keeps a (read r a) (read-IsByteRead r a h small)
  perform-Keeps a (read_many n) h small =
      let (o, moved, there, few, all, place) = read_block-IsBlockRead r a n h small in
      let x = read_block r a n in
      record {
        is_open = o;
        moves = moved;
        answers = (length x.0, block n x.0 (view r x.1) there few all, place);
      }
  perform-Keeps a look h small =
      let (o, moved, same, place, e) = look_ahead-Looks r a h small in
      record {
        is_open = o;
        moves = omega (arith, moved);
        answers = (0, rw e (looked (view r (look_ahead r a).1) same), omega (arith, place));
      }
  perform-Keeps a (skip_over n) h small =
      let s = skip-IsSkipped r a n h in
      let x = skip r a n in
      record {
        is_open = s.is_open;
        moves = s.moves;
        answers = (x.0, skipped n x.0 (view r x.1) s.at_most s.in_rest s.dropped, s.place_moved);
      }
  perform-Keeps a (look_far n) h small =
      let (o, moved, same, place, (zs, there), few, ended) = look_ahead_block-Looks r a n h small in
      let x = look_ahead_block r a n in
      record {
        is_open = o;
        moves = omega (arith, moved);
        answers = (
          0,
          looked_far n x.0 (view r x.1) zs same there few (λ pos e. ended pos (ap length e)),
          omega (arith, place),
        );
      }

  -- Whatever calls are made, one after the other, on a stream that is open, their answers are those of
  -- reading one list of bytes from front to end: the bytes that the buffer and the stream under it have
  -- left. What is left of that list at the end is what the stream has left, and the position has moved
  -- on by as many bytes as were read or skipped. The sizes asked for, together with the index of the
  -- first unread byte in the buffer, are at most 2^63.
  pub perform_all-Session :
      (a : LookAhead S) (cs : List Call)
      → IsOpen a
      → a.pos + reach_all cs ≤ 2 ^ 63
      → (n : ℕ) × Session (view r a) cs (perform_all a cs).0 (view r (perform_all a cs).1) n
        × ((perform_all a cs).1.position ≡ a.position + n)
  unfolding perform_all
  perform_all-Session a [] h small = (0, over (view r a), omega arith)
  perform_all-Session a (c ∷ cs) h small =
      let k = perform-Keeps a c h (omega (arith, small)) in
      let moved = k.moves in
      let b = (perform a c).1 in
      let (m, first, place) = k.answers in
      let (n, rest, end) = perform_all-Session b cs k.is_open (omega (arith, small, moved)) in
      (
        m + n,
        then (view r a) (view r b) (view r (perform_all b cs).1) c cs (perform a c).0
            (perform_all b cs).0 m n first rest,
        omega (arith, place, end),
      )
