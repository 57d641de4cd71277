-- ===== src/Run/Chunk.antt =====
-- internal/run/chunk.go: a section of the logs of a phase, and the cutting of it. Bytes are
-- numbers; offsets and limits, which requests give, are not negative. The field Data is `bytes`. A
-- field that is not set is `none`, and so is the result of a slice that is out of bounds, where Go
-- panics.
mod Pieces
use otf.Prelude.{
  ℕ, ◌+◌, ◌-◌, ltb, ◌==◌, Bool, false, ◌||◌, Option, none, some, List, [], ◌∷◌, if◌then◌else◌,
  length, take, drop, last?, Result, ok, err,
}
use otf.Resource.{TfeId}
use otf.Run.Phase.{PhaseType}

pub record Chunk : Type 0 where
  pub id : Option TfeId
  pub run_id : Option TfeId
  pub phase : Option PhaseType
  pub offset : ℕ
  pub bytes : List ℕ

pub record PutChunkOptions : Type 0 where
  pub run_id : TfeId
  pub phase : PhaseType
  pub offset : ℕ
  pub bytes : List ℕ

-- The part of `GetChunkOptions` that `Cut` reads.
pub record GetChunkOptions : Type 0 where
  pub limit : ℕ
  pub offset : ℕ

pub data ChunkError : Type 0 where
  empty_chunk : ChunkError

-- `newChunk`. The identifier, which is drawn at random, is an argument.
unfoldable pub new_chunk : TfeId → PutChunkOptions → Result ChunkError Chunk
new_chunk id opts =
    if length opts.bytes == 0
    then err empty_chunk
    else ok (record {
      id = some id;
      run_id = some opts.run_id;
      phase = some opts.phase;
      offset = opts.offset;
      bytes = opts.bytes;
    })

-- `NextOffset`.
abbrev pub next_offset : Chunk → ℕ
next_offset c = c.offset + length c.bytes

-- The limit, which is not greater than the chunk.
abbrev pub limit_of : Chunk → GetChunkOptions → ℕ
limit_of c opts =
    if ltb (next_offset c) (opts.offset + opts.limit) || opts.limit == 0
    then next_offset c - opts.offset
    else opts.limit

-- `Cut`.
unfoldable pub cut : Chunk → GetChunkOptions → Option Chunk
cut c opts =
    if ltb (next_offset c) opts.offset
    then some
        (record { id = none; run_id = none; phase = none; offset = next_offset c; bytes = [] })
    else if ltb opts.offset c.offset
    then none
    else some (record c {
      bytes = take (limit_of c opts) (drop (opts.offset - c.offset) c.bytes);
      offset = opts.offset;
    })

abbrev starts_with : ℕ → List ℕ → Bool
starts_with b [] = false
starts_with b (x ∷ xs) = x == b

abbrev is_byte : ℕ → Option ℕ → Bool
is_byte b none = false
is_byte b (some x) = x == b

-- `IsStart` and `IsEnd`.
abbrev pub is_start : Chunk → Bool
is_start c = starts_with 2 c.bytes

abbrev pub is_end : Chunk → Bool
is_end c = is_byte 3 (last? c.bytes)
