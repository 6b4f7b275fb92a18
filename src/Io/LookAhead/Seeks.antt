-- ===== src/Io/LookAhead/Seeks.antt =====
-- seek from the current place: forward within the buffer, and backward.
use bas_cpp.Prelude.{ℕ, ◌-◌, ◌^◌, ◌<◌, ◌≡◌, refl, true, false, arith, ltb}
use bas_cpp.Io.RawStream.{SeekDir}
use bas_cpp.Io.LookAhead.{LookAhead, is_negative, minus, move_by, seek_by, seek}

module _ {S : Type 0} where
  -- A seek back by `k` bytes, from the current place, on a stream whose index in its buffer is `a.pos`:
  -- one by less than the index is refused, though those bytes are in the buffer, and one by more is
  -- granted, with the index 2^64 - (k - a.pos). Only `k` equal to the index leads to where it should.
  pub seek_back-inverted :
      (a : LookAhead S) (k : ℕ)
      → 0 < k
      → k < 2 ^ 63
      → a.pos < 2 ^ 63
      → (k < a.pos → seek a (2 ^ 64 - k) SeekDir.cur ≡ (false, a))
        × (a.pos < k
            → ((seek a (2 ^ 64 - k) SeekDir.cur).0 ≡ true)
              × ((seek a (2 ^ 64 - k) SeekDir.cur).1.pos ≡ 2 ^ 64 - (k - a.pos)))
        × (k ≡ a.pos → (seek a (2 ^ 64 - k) SeekDir.cur).1.pos ≡ 0)
  unfolding seek seek_by move_by
  seek_back-inverted a k some_back small inside =
      let back : is_negative (2 ^ 64 - k) ≡ true = ground arith in
      let size : minus 0 (2 ^ 64 - k) ≡ k = omega arith in
      rw (back, size)
        (
          λ less. let e : ltb k a.pos ≡ true = ground arith in rw e refl,
          λ more.
              let e : ltb k a.pos ≡ false = ground arith in
              rw e (refl, omega (arith, more, some_back, small)),
          λ same. let e : ltb k a.pos ≡ false = ground arith in rw e (omega (arith, same, small)),
        )
