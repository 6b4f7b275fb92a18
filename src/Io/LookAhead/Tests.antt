-- ===== src/Io/LookAhead/Tests.antt =====
-- Runs of the look-ahead stream over an array of bytes.
use bas_cpp.Prelude.{ℕ, ◌+◌, ◌-◌, ◌^◌, ◌<◌, ◌≡◌, true, false, some, List, [], ◌∷◌, arith, Bytes}
use bas_cpp.Io.RawStream.{SeekDir}
use bas_cpp.Io.ArrayStream.{ArrayStream, left_in_array}
use bas_cpp.Io.ArrayStream.Left.{array_raw}
use bas_cpp.Io.LookAhead.{LookAhead, read_until_eof, read_raw_line, seek}
use bas_cpp.Io.LookAhead.View.{IsOpen, view}
use bas_cpp.Io.LookAhead.Lines.{IsLineRead, read_until_eof-view, read_raw_line-IsLineRead}
use bas_cpp.Io.LookAhead.Seeks.{seek_back-inverted}
use bas_cpp.Io.LookAhead.Session.{Call, Session, perform_all, perform_all-Session}

abbrev ab_line : Bytes
ab_line = b'a' ∷ b'b' ∷ b'\n' ∷ b'c' ∷ []

-- A buffer of two bytes over four.
abbrev small_stream : LookAhead ArrayStream
small_stream = record {
  unlimit = false;
  buffer = 0 ∷ 0 ∷ [];
  pos = 0;
  limit = 0;
  position = 0;
  raw = record { data_bytes = ab_line; position = 0; closed = false };
}

small_stream-IsOpen : IsOpen small_stream
small_stream-IsOpen = record {
  in_order = omega arith;
  in_buffer = omega arith;
  some_room = λ _. omega arith;
}

abbrev three_calls : List Call
three_calls = Call.look ∷ Call.read_many 3 ∷ Call.skip_over 5 ∷ []

perform_all-Session_example :
    (n : ℕ) × Session
      (view array_raw small_stream)
      three_calls
      (perform_all array_raw small_stream three_calls).0
      (view array_raw (perform_all array_raw small_stream three_calls).1)
      n
    × ((perform_all array_raw small_stream three_calls).1.position ≡ 0 + n)
perform_all-Session_example =
    perform_all-Session array_raw small_stream three_calls small_stream-IsOpen (omega arith)

read_until_eof-view_example :
    read_until_eof array_raw 9 small_stream ≡ some (view array_raw small_stream)
unfolding left_in_array
read_until_eof-view_example =
    read_until_eof-view array_raw 9 small_stream small_stream-IsOpen (omega arith) (omega arith)

read_raw_line-IsLineRead_example :
    IsLineRead array_raw small_stream (read_raw_line array_raw 5 small_stream)
unfolding left_in_array
read_raw_line-IsLineRead_example =
    read_raw_line-IsLineRead array_raw 5 small_stream small_stream-IsOpen (omega arith)
      (omega arith)

-- Two of the three bytes that were read are to be read again.
abbrev read_three : LookAhead ArrayStream
read_three = record {
  unlimit = true;
  buffer = b'a' ∷ b'b' ∷ b'c' ∷ [];
  pos = 3;
  limit = 3;
  position = 3;
  raw = record { data_bytes = ab_line; position = 3; closed = false };
}

seek_back-inverted_example :
    (1 < 3 → seek read_three (2 ^ 64 - 1) SeekDir.cur ≡ (false, read_three))
    × (3 < 1
        → ((seek read_three (2 ^ 64 - 1) SeekDir.cur).0 ≡ true)
          × ((seek read_three (2 ^ 64 - 1) SeekDir.cur).1.pos ≡ 2 ^ 64 - (1 - 3)))
    × (◌≡◌ {A = ℕ} 1 3 → (seek read_three (2 ^ 64 - 1) SeekDir.cur).1.pos ≡ 0)
seek_back-inverted_example =
    seek_back-inverted read_three 1 (omega arith) (omega arith) (omega arith)
