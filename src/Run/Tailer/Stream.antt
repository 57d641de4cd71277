-- ===== src/Run/Tailer/Stream.antt =====
-- internal/run/tailer.go: the chunks that are sent make up the logs.
use otf.Prelude.{
  ℕ, ◌+◌, ◌-◌, ◌≤◌, ◌<◌, ◌≡◌, refl, sym, ap, ◌∙◌, true, false, Option, some, List, [], ◌∷◌, ◌++◌,
  arith, Bool-cases, inl, inr, ◌⊎◌, length, drop, length-drop, take_all, drop-drop, drop_nil,
  drop_all, length_zero, drop-append_within, drop-append_behind, last?-drop, if◌then◌else◌, ltb,
  leb, ◌==◌, any,
}
use otf.Run.Chunk.{Chunk, cut, next_offset, is_end}
use otf.Run.Tailer.{TailOptions, is_of, skipped, sent, relay_event, relay, tail, existing_first}

abbrev pub bytes_of : List Chunk → List ℕ
bytes_of [] = []
bytes_of (c ∷ cs) = c.bytes ++ bytes_of cs

-- Events of the run and the phase, each of which starts where the one before it ends, from the
-- start on, with events of others in between, and none of them behind the end of the logs.
abbrev pub IsStream : TailOptions → ℕ → List Chunk → Type 0
IsStream opts start [] = Unit
IsStream opts start (c ∷ cs) =
    if is_of opts c
    then (c.offset ≡ start)
      × ((is_end c ≡ false) ⊎ (any (is_of opts) cs ≡ false))
      × IsStream opts (next_offset c) cs
    else IsStream opts start cs

abbrev pub stream_bytes : TailOptions → List Chunk → List ℕ
stream_bytes opts [] = []
stream_bytes opts (c ∷ cs) =
    let rest = stream_bytes opts cs in if is_of opts c then c.bytes ++ rest else rest

cut_rest :
    (c : Chunk) (offset : ℕ)
    → c.offset < offset
    → offset < next_offset c
    → cut c (record { limit = 0; offset = offset })
      ≡ some (record c { bytes = drop (offset - c.offset) c.bytes; offset = offset })
unfolding cut
cut_rest c offset h k =
    let all =
      take_all (next_offset c - offset) (drop (offset - c.offset) c.bytes)
        (omega (arith, length-drop (offset - c.offset) c.bytes)) in
    let a : ltb (next_offset c) offset ≡ false = ground arith in
    let b : ltb offset c.offset ≡ false = ground arith in
    let l : ltb (next_offset c) (offset + 0) ≡ false = ground arith in rw (cut, a, b, l, all) refl

-- How the loop meets an event of the run and the phase.
relay_event_cases :
    (opts : TailOptions) (c : Chunk)
    → is_of opts c ≡ true
    → (relay_event opts c ≡ skipped) × (drop (opts.offset - c.offset) c.bytes ≡ [])
      ⊎ ((s : Chunk) × (relay_event opts c ≡ sent s)
          × (is_end s ≡ is_end c)
          × (s.bytes ≡ drop (opts.offset - c.offset) c.bytes))
unfolding relay_event
relay_event_cases opts c own = elim (Bool-cases (ltb c.offset opts.offset)) [
  | inl lo ↦ elim (Bool-cases (leb (next_offset c) opts.offset)) [
    | inl le ↦ inl (
      rw (relay_event, own, lo, le) refl,
      drop_all (opts.offset - c.offset) c.bytes (ground arith),
    )
    | inr gt ↦
        let part : Chunk = record c {
          bytes = drop (opts.offset - c.offset) c.bytes;
          offset = opts.offset;
        } in
        let long = length-drop (opts.offset - c.offset) c.bytes in
        let some_left : length part.bytes == 0 ≡ false = ground (arith, long, gt, lo) in
        inr (
          part,
          rw
              (
                relay_event,
                own,
                lo,
                gt,
                cut_rest c opts.offset (ground arith) (ground arith),
                some_left,
              )
              refl,
          rw (last?-drop (opts.offset - c.offset) c.bytes (ground arith)) refl,
          refl,
        )
  ]
  | inr hi ↦
      let none_cut : opts.offset - c.offset ≡ 0 = ground arith in
      elim (Bool-cases (length c.bytes == 0)) [
        | inl z ↦
            inl
              (rw (relay_event, own, hi, z) refl, rw none_cut (length_zero c.bytes (ground arith)))
        | inr z ↦ inr (c, rw (relay_event, own, hi, z) refl, refl, rw none_cut refl)
      ]
]

not_own : (opts : TailOptions) (c : Chunk) → is_of opts c ≡ false → relay_event opts c ≡ skipped
unfolding relay_event
not_own opts c h = rw (relay_event, h) refl

-- The bytes from an offset on, in the chunk and behind it.
split_bytes :
    (offset start : ℕ) (c : Chunk) (rest : List ℕ)
    → c.offset ≡ start
    → drop (offset - start) (c.bytes ++ rest)
      ≡ drop (offset - c.offset) c.bytes ++ drop (offset - next_offset c) rest
split_bytes offset start c rest h =
    let same : offset - start ≡ offset - c.offset = rw h refl in
    elim (Bool-cases (leb offset (next_offset c))) [
      | inl le ↦
          let none_behind : offset - next_offset c ≡ 0 = ground arith in
          rw (same, none_behind)
            (drop-append_within (offset - c.offset) c.bytes rest (ground arith))
      | inr gt ↦
          let behind : offset - c.offset ≡ length c.bytes + (offset - next_offset c) =
            ground arith in
          let gone = drop_all (offset - c.offset) c.bytes (ground arith) in
          rw (same, gone) (rw behind (drop-append_behind (offset - next_offset c) c.bytes rest))
    ]

others_bytes :
    (opts : TailOptions) (events : List Chunk)
    → any (is_of opts) events ≡ false
    → stream_bytes opts events ≡ []
others_bytes opts [] h = refl
others_bytes opts (c ∷ cs) h = elim (Bool-cases (is_of opts c)) [
  | inl own ↦ absurd (ground (arith, rw own at h))
  | inr other ↦ rw other (others_bytes opts cs (rw other at h))
]

-- A chunk that is sent, with what is sent behind it.
sent_step :
    (opts : TailOptions) (c s : Chunk) (cs rest : List Chunk) (d : ℕ)
    → relay_event opts c ≡ sent s
    → is_end s ≡ is_end c
    → (is_end c ≡ false) ⊎ (any (is_of opts) cs ≡ false)
    → relay opts cs ≡ some rest
    → bytes_of rest ≡ drop d (stream_bytes opts cs)
    → (sent_chunks : List Chunk) × (relay opts (c ∷ cs) ≡ some sent_chunks)
      × (bytes_of sent_chunks ≡ s.bytes ++ drop d (stream_bytes opts cs))
unfolding relay
sent_step opts c s cs rest d e ends last r b = elim (Bool-cases (is_end c)) [
  | inr more ↦ (s ∷ rest, rw (e, ends, more, r) refl, rw b refl)
  | inl end ↦ elim last [
    | inl more ↦ absurd (ground (arith, end, more))
    | inr others ↦
        (s ∷ [], rw (e, ends, end) refl, rw (others_bytes opts cs others, drop_nil {A = ℕ} d) refl)
  ]
]

-- What is sent, seen from an offset within or in front of the events.
relay_bytes :
    (opts : TailOptions) (start : ℕ) (events : List Chunk)
    → IsStream opts start events
    → (sent_chunks : List Chunk) × (relay opts events ≡ some sent_chunks)
      × (bytes_of sent_chunks ≡ drop (opts.offset - start) (stream_bytes opts events))
unfolding relay
relay_bytes opts start [] h = ([], refl, sym (drop_nil (opts.offset - start)))
relay_bytes opts start (c ∷ cs) h = elim (Bool-cases (is_of opts c)) [
  | inr other ↦
      let (rest, r, b) = relay_bytes opts start cs (rw other at h) in
      (rest, rw (not_own opts c other, r) refl, rw other b)
  | inl own ↦
      let (here, last, stream) = rw own at h in
      let (rest, r, b) = relay_bytes opts (next_offset c) cs stream in
      let whole = split_bytes opts.offset start c (stream_bytes opts cs) here in
      elim (relay_event_cases opts c own) [
        | inl (e, none_left) ↦ (rest, rw (e, r) refl, rw own (b ∙ sym (whole ∙ rw none_left refl)))
        | inr (s, e, ends, bytes) ↦
            let (all, done, sum) =
              sent_step opts c s cs rest (opts.offset - next_offset c) e ends last r b in
            (all, done, sum ∙ rw bytes (sym (rw own whole)))
      ]
]

existing_bytes :
    (existing : Chunk) (events : Option (List Chunk)) (rest : List Chunk)
    → events ≡ some rest
    → (all : List Chunk) × (existing_first existing events ≡ some all)
      × (bytes_of all ≡ existing.bytes ++ bytes_of rest)
existing_bytes existing events rest h = elim (Bool-cases (ltb 0 (length existing.bytes))) [
  | inl there ↦ (existing ∷ rest, rw (there, h) refl, refl)
  | inr empty ↦
      (rest, rw (empty, h) refl, rw (length_zero existing.bytes (ground (arith, empty))) refl)
]

-- The logs are those in front of the subscription with those of its events, which are of the run
-- and the phase and follow one another, none of them behind the end of the logs. The chunk that is
-- retrieved holds the logs from the offset asked for to a place that is not in front of the first
-- event. Then the chunks that the tail sends make up the logs from that offset on: no byte is lost
-- and none comes twice, however far the chunk reaches into the events.
pub tail-logs :
    (opts : TailOptions) (existing : Chunk) (front later : List ℕ) (events : List Chunk)
    → IsStream opts (length front) events
    → drop opts.offset (front ++ stream_bytes opts events) ≡ existing.bytes ++ later
    → length front ≤ opts.offset + length existing.bytes
    → (all : List Chunk) × (tail opts existing events ≡ some all)
      × (bytes_of all ≡ drop opts.offset (front ++ stream_bytes opts events))
unfolding tail
tail-logs opts existing front later events stream have reach =
    let from = opts.offset + length existing.bytes in
    let logs = front ++ stream_bytes opts events in
    let (rest, r, b) = relay_bytes (record opts { offset = from }) (length front) events stream in
    let (all, done, sum) = existing_bytes existing _ rest r in
    let behind : from ≡ length front + (from - length front) = omega arith in
    let cut_off : drop from logs ≡ bytes_of rest =
      ap (λ n. drop n logs) behind
      ∙ drop-append_behind (from - length front) front (stream_bytes opts events)
      ∙ sym b in
    let left : drop from logs ≡ later =
      sym (drop-drop opts.offset (length existing.bytes) logs)
      ∙ ap (drop (length existing.bytes)) have
      ∙ ap (λ n. drop n (existing.bytes ++ later)) (omega arith)
      ∙ drop-append_behind 0 existing.bytes later in
    (all, done, sum ∙ ap (λ l. existing.bytes ++ l) (sym cut_off ∙ left) ∙ sym have)
