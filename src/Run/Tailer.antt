-- ===== src/Run/Tailer.antt =====
-- internal/run/tailer.go: the tail of the logs of a phase. The chunk that the client retrieves and
-- the events of the subscription are arguments; what is sent on the channel is a list. A chunk
-- whose cut is out of bounds, where Go panics, gives `none`.
pub mod Stream
use otf.Prelude.{
  ℕ, ◌+◌, ltb, leb, ◌==◌, Bool, true, false, not, ◌&&◌, Option, none, some, List, [], ◌∷◌,
  if◌then◌else◌, test, length,
}
use otf.Resource.{TfeId, TfeId-discrete}
use otf.Run.Phase.{PhaseType, PhaseType-discrete}
use otf.Run.Chunk.{Chunk, GetChunkOptions, cut, next_offset, is_end}

pub record TailOptions : Type 0 where
  pub run_id : TfeId
  pub phase : PhaseType
  pub offset : ℕ

abbrev is_phase : PhaseType → Option PhaseType → Bool
is_phase p none = false
is_phase p (some q) = test (PhaseType-discrete p q)

abbrev is_run : TfeId → Option TfeId → Bool
is_run r none = false
is_run r (some q) = test (TfeId-discrete r q)

-- Whether a chunk is of the run and the phase.
abbrev pub is_of : TailOptions → Chunk → Bool
is_of opts c = is_run opts.run_id c.run_id && is_phase opts.phase c.phase

-- What the loop does with an event: nothing, send a chunk, or panic.
pub data Relayed : Type 0 where
  skipped panicked : Relayed
  sent : Chunk → Relayed

abbrev pub sent_cut : Option Chunk → Relayed
sent_cut none = panicked
sent_cut (some c) = if length c.bytes == 0 then skipped else sent c

unfoldable pub relay_event : TailOptions → Chunk → Relayed
relay_event opts c =
    if not (is_of opts c)
    then skipped
    else if ltb c.offset opts.offset
    then (if leb (next_offset c) opts.offset
        then skipped
        else sent_cut (cut c (record { limit = 0; offset = opts.offset })))
    else sent_cut (some c)

abbrev pub cons_sent : Chunk → Option (List Chunk) → Option (List Chunk)
cons_sent c none = none
cons_sent c (some cs) = some (c ∷ cs)

-- A chunk that ends the logs ends the loop.
abbrev pub after_event : Relayed → Option (List Chunk) → Option (List Chunk)
after_event skipped rest = rest
after_event panicked rest = none
after_event (sent c) rest = if is_end c then some (c ∷ []) else cons_sent c rest

unfoldable pub relay : TailOptions → List Chunk → Option (List Chunk)
relay opts [] = some []
relay opts (c ∷ cs) = let rest = relay opts cs in after_event (relay_event opts c) rest

abbrev pub existing_first : Chunk → Option (List Chunk) → Option (List Chunk)
existing_first c rest = if ltb 0 (length c.bytes) then cons_sent c rest else rest

-- `Tail`, given what `GetChunk` returns from the offset on.
unfoldable pub tail : TailOptions → Chunk → List Chunk → Option (List Chunk)
tail opts existing events =
    existing_first existing
      (relay (record opts { offset = opts.offset + length existing.bytes }) events)
