-- ===== src/Run/Chunk/Pieces.antt =====
-- The pieces of a chunk make up the chunk.
use otf.Prelude.{
  ℕ, ◌+◌, ◌-◌, ◌≤◌, ◌≡◌, some, List, ◌++◌, arith, length, take, drop, length-take, length-drop,
  take-drop, drop-drop, take_all, sym,
}
use otf.Run.Chunk.{Chunk, GetChunkOptions, next_offset, limit_of, cut}

cut_within :
    (c : Chunk) (o : GetChunkOptions)
    → c.offset ≤ o.offset
    → o.offset ≤ next_offset c
    → cut c o
      ≡ some (record c {
        bytes = take (limit_of c o) (drop (o.offset - c.offset) c.bytes);
        offset = o.offset;
      })
unfolding cut
cut_within c o h k = ground arith

abbrev at_offset : ℕ → ℕ → GetChunkOptions
at_offset limit offset = record { limit = limit; offset = offset }

-- The bytes of the piece and of the rest.
pieces_bytes :
    (d n m : ℕ) (l rest whole : List ℕ)
    → m ≡ d + n
    → rest ≡ drop m l
    → whole ≡ drop d l
    → take n (drop d l) ++ rest ≡ whole
pieces_bytes d n m l rest whole e r w =
    rw (r, w, e) (rw (sym (drop-drop d n l)) (take-drop n (drop d l)))

-- What is cut without a limit is all from the offset.
rest_bytes :
    (c : Chunk) (offset : ℕ)
    → c.offset ≤ offset
    → take (limit_of c (at_offset 0 offset)) (drop (offset - c.offset) c.bytes)
      ≡ drop (offset - c.offset) c.bytes
rest_bytes c offset h =
    let all : limit_of c (at_offset 0 offset) ≡ next_offset c - offset = ground arith in
    take_all _ (drop (offset - c.offset) c.bytes)
      (omega (arith, all, length-drop (offset - c.offset) c.bytes))

-- From an offset within a chunk a piece of any limit can be cut, and then the rest from the end of
-- the piece: the two together are what is cut from the offset without a limit, and the piece ends
-- within the chunk.
pub cut-pieces :
    (c : Chunk) (limit offset : ℕ)
    → c.offset ≤ offset
    → offset ≤ next_offset c
    → (piece : Chunk) × (rest : Chunk) × (whole : Chunk) × (cut c (at_offset limit offset)
        ≡ some piece)
      × (cut c (at_offset 0 (next_offset piece)) ≡ some rest)
      × (cut c (at_offset 0 offset) ≡ some whole)
      × (piece.bytes ++ rest.bytes ≡ whole.bytes)
      × (next_offset piece ≤ next_offset c)
cut-pieces c limit offset h k =
    let d = offset - c.offset in
    let n = limit_of c (at_offset limit offset) in
    let bound : n + d ≤ length c.bytes = ground arith in
    let size : length (take n (drop d c.bytes)) ≡ n =
      omega (arith, length-take n (drop d c.bytes), length-drop d c.bytes) in
    let end = offset + length (take n (drop d c.bytes)) in
    let moved : end - c.offset ≡ d + n = omega arith in
    let low : c.offset ≤ end = omega arith in
    let high : end ≤ next_offset c = omega arith in
    (
      record c { bytes = take n (drop d c.bytes); offset = offset },
      record c {
        bytes = take (limit_of c (at_offset 0 end)) (drop (end - c.offset) c.bytes);
        offset = end;
      },
      record c { bytes = take (limit_of c (at_offset 0 offset)) (drop d c.bytes); offset = offset },
      cut_within c (at_offset limit offset) h k,
      cut_within c (at_offset 0 end) low high,
      cut_within c (at_offset 0 offset) h k,
      pieces_bytes d n (end - c.offset) c.bytes _ _ moved (rest_bytes c end low)
          (rest_bytes c offset h),
      high,
    )
