-- ===== src/Connection/Receive/Cursor.antt =====
-- The cursor of the decode loop in a list (protosocket-connection/src/connection.rs): slices of the
-- receive buffer, and the shift that follows the loop.
use protosocket.Prelude.{
  done, ℕ, ◌+◌, ◌-◌, ◌^◌, ◌≤◌, ◌<◌, ◌≡◌, inl, inr, refl, sym, ap, subst, ◌∙◌, ◌==◌, Bool-cases,
  List, ◌++◌, length, take, drop, some, arith, length-append, length-take, length-drop,
  take-append_length, drop-drop, drop-take,
}
use protosocket.Connection.State.{Connection, ReadBufferState}
use protosocket.Connection.Receive.{slice?, shift_unread}

module _ {S D R B L : Type 0} where
  -- The bytes that the codec is shown with the cursor at `cursor`.
  abbrev pub bytes_at : Connection S D R B L → ℕ → List ℕ
  bytes_at c cursor = take (c.receive_buffer_unread_index - cursor) (drop cursor c.receive_buffer)

  -- The bytes that were read and not yet decoded.
  abbrev pub unread : Connection S D R B L → List ℕ
  unread c = take c.receive_buffer_unread_index c.receive_buffer

  -- The unread bytes lie in the buffer, and no allocation passes `isize::MAX` bytes.
  pub record IsValid (c : Connection S D R B L) : Type 0 where
    pub in_buffer : c.receive_buffer_unread_index ≤ length c.receive_buffer
    pub allocated : length c.receive_buffer < 2 ^ 63

  pub length-bytes_at :
      (c : Connection S D R B L) (cursor : ℕ)
      → IsValid c
      → length (bytes_at c cursor) ≡ c.receive_buffer_unread_index - cursor
  length-bytes_at c cursor h = omega (
    arith,
    length-take (c.receive_buffer_unread_index - cursor) (drop cursor c.receive_buffer),
    length-drop cursor c.receive_buffer,
    h.in_buffer,
  )

  pub drop-bytes_at :
      (c : Connection S D R B L) (cursor n : ℕ)
      → drop n (bytes_at c cursor) ≡ bytes_at c (cursor + n)
  drop-bytes_at c cursor n =
      drop-take n (c.receive_buffer_unread_index - cursor) (drop cursor c.receive_buffer)
      ∙ rw (drop-drop n cursor c.receive_buffer)
          (ap (λ k. take k (drop (cursor + n) c.receive_buffer)) (omega arith))

  pub slice?-bytes_at :
      (c : Connection S D R B L) (cursor : ℕ)
      → IsValid c
      → cursor ≤ c.receive_buffer_unread_index
      → slice? c.receive_buffer cursor c.receive_buffer_unread_index ≡ some (bytes_at c cursor)
  unfolding slice?
  slice?-bytes_at c cursor h le = ground arith

  -- What the shift leaves behind.
  pub record Shifts (c : Connection S D R B L) (cursor : ℕ) (c' : Connection S D R B L)
      : Type 0 where
    pub kept : unread c' ≡ bytes_at c cursor
    pub valid : IsValid c'
    pub same_length : length c'.receive_buffer ≡ length c.receive_buffer
    pub fewer : c'.receive_buffer_unread_index ≡ c.receive_buffer_unread_index - cursor
    pub frame : c' ≡ record c {
      receive_buffer = c'.receive_buffer;
      receive_buffer_unread_index = c'.receive_buffer_unread_index;
    }

  abbrev moved : Connection S D R B L → ℕ → Connection S D R B L
  moved c cursor = record c {
    receive_buffer =
        bytes_at c cursor ++ drop (c.receive_buffer_unread_index - cursor) c.receive_buffer;
    receive_buffer_unread_index = c.receive_buffer_unread_index - cursor;
  }

  moved-Shifts :
      (c : Connection S D R B L) (cursor : ℕ)
      → IsValid c
      → cursor ≤ c.receive_buffer_unread_index
      → Shifts c cursor (moved c cursor)
  moved-Shifts c cursor h le =
      let n = length-bytes_at c cursor h in
      let rest = drop (c.receive_buffer_unread_index - cursor) c.receive_buffer in
      let same : length (bytes_at c cursor ++ rest) ≡ length c.receive_buffer = omega (
        arith,
        n,
        h.in_buffer,
        length-append (bytes_at c cursor) rest,
        length-drop (c.receive_buffer_unread_index - cursor) c.receive_buffer,
      ) in
      record {
        kept =
            ap (λ k. take k (bytes_at c cursor ++ rest)) (sym n)
            ∙ take-append_length (bytes_at c cursor) rest;
        valid = record {
          in_buffer = omega (arith, same, h.in_buffer);
          allocated = omega (arith, same, h.allocated);
        };
        same_length = same;
        fewer = refl;
        frame = refl;
      }

  unmoved-Shifts : (c : Connection S D R B L) → IsValid c → Shifts c 0 c
  unmoved-Shifts c h = record {
    kept = ap (λ k. take k c.receive_buffer) (omega arith);
    valid = h;
    same_length = refl;
    fewer = omega arith;
    frame = refl;
  }

  emptied-Shifts :
      (c : Connection S D R B L)
      → IsValid c
      → Shifts c c.receive_buffer_unread_index (record c { receive_buffer_unread_index = 0 })
  emptied-Shifts c h = record {
    kept =
        ap (λ k. take k (drop c.receive_buffer_unread_index c.receive_buffer))
          (let e : 0 ≡ c.receive_buffer_unread_index - c.receive_buffer_unread_index =
              omega arith in
            e);
    valid = record { in_buffer = omega arith; allocated = h.allocated };
    same_length = refl;
    fewer = omega arith;
    frame = refl;
  }

  -- The shift never panics with the cursor among the unread bytes, and moves the rest of them to
  -- the front.
  pub shift_unread-Shifts :
      (state : ReadBufferState) (c : Connection S D R B L) (cursor : ℕ)
      → IsValid c
      → cursor ≤ c.receive_buffer_unread_index
      → (c' : Connection S D R B L) × (shift_unread state cursor c ≡ done (state, c'))
        × Shifts c cursor c'
  unfolding shift_unread
  shift_unread-Shifts state c cursor h le = elim (Bool-cases (cursor == 0)) [
    | inl none_taken ↦ (
      c,
      rw none_taken,
      subst (λ k. Shifts c k c) (let e : 0 ≡ cursor = ground arith in e) (unmoved-Shifts c h),
    )
    | inr some_taken ↦ elim (Bool-cases (cursor == c.receive_buffer_unread_index)) [
      | inl all_taken ↦ (
        record c { receive_buffer_unread_index = 0 },
        rw (some_taken, all_taken),
        subst (λ k. Shifts c k (record c { receive_buffer_unread_index = 0 }))
            (let e : c.receive_buffer_unread_index ≡ cursor = ground arith in e)
            (emptied-Shifts c h),
      )
      | inr part ↦ (
        moved c cursor,
        rw (some_taken, part, slice?-bytes_at c cursor h le),
        moved-Shifts c cursor h le,
      )
    ]
  ]
