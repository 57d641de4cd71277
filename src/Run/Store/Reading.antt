-- ===== src/Run/Store/Reading.antt =====
-- internal/run/db.go: the timestamps that are read of a run climb, where the clock does not run
-- backwards.
use otf.Prelude.{
  ℕ, ◌≤◌, ◌<◌, ◌≡◌, refl, ◌∙◌, ◌⊎◌, inl, inr, Option, none, some, List, [], ◌∷◌, arith,
  Result-cases, Option-cases,
}
use otf.Time.{Time, current_timestamp}
use otf.Run.Types.{Run, StatusTimestamp}
use otf.Run.Phase.{Phase}
use otf.Run.Lifecycle.{Event, step, status_timestamp}
use otf.Run.Lifecycle.Clock.{IsRising, RisesTo, RisesTo-mono, Ticks, InTurn, step-RisesTo}
use otf.Run.Store.{
  row_of, scan_row, sort_by_time, timestamps_written, update_row, update_status, update_statuses,
}
use otf.Run.Store.Ranks.{rank, IsClimbing, step-rank, timestamps_written-ClimbsTo}
use otf.Run.Store.Sorted.{Extends, sort_rising, step-Extends, found_rises}

-- The statuses climb and the times rise, up to a time.
abbrev pub IsOrdered : Run → Time → Type 0
IsOrdered r t = IsClimbing r × RisesTo r t

row_of-some :
    (old new row : Run) (ts : Option (List StatusTimestamp)) (plan apply : Option Phase)
    → scan_row (row_of old new ts plan apply) ≡ some row
    → (l : List StatusTimestamp) × (ts ≡ some l)
      × (row.status_timestamps ≡ sort_by_time (λ x. x.timestamp) l)
      × (row.status ≡ new.status)
row_of-some old new row none plan apply e = absurd (ground (arith, e))
row_of-some old new row (some ts) none apply e = absurd (ground (arith, e))
row_of-some old new row (some ts) (some plan) none e = absurd (ground (arith, e))
row_of-some old new row (some ts) (some plan) (some apply) e =
    (ts, refl, ground (arith, e), ground (arith, e))

timestamps_written-IsRising :
    (old new : Run) (l : List StatusTimestamp) (s t : Time)
    → (new.status ≡ old.status) ⊎ (rank old.status < rank new.status)
    → Extends old.status_timestamps new.status_timestamps
    → timestamps_written old new ≡ some l
    → IsOrdered old s
    → s ≤ t
    → RisesTo new t
    → IsRising 0 l (current_timestamp none t)
unfolding timestamps_written status_timestamp
timestamps_written-IsRising old new l s t d x e (climbs, rises) st new_rises =
    elim (Result-cases (status_timestamp new new.status)) [
      | inr (y, q) ↦ ground (arith, RisesTo-mono old s t rises st)
      | inl (u, q) ↦ ground (
        arith,
        RisesTo-mono old s t rises st,
        found_rises 0 old.status_timestamps new.status_timestamps (current_timestamp none t)
            old.status new.status u x new_rises climbs,
      )
    ]

update_row-IsOrdered :
    (old new row : Run) (s t : Time)
    → (new.status ≡ old.status) ⊎ (rank old.status < rank new.status)
    → Extends old.status_timestamps new.status_timestamps
    → update_row old new ≡ some row
    → IsOrdered old s
    → s ≤ t
    → RisesTo new t
    → IsOrdered row t
unfolding update_row
update_row-IsOrdered old new row s t d x e h st new_rises =
    let (l, ts, sorted, status) = row_of-some old new row _ _ _ e in
    let rises = timestamps_written-IsRising old new l s t d x ts h st new_rises in
    let same : row.status_timestamps ≡ l =
      sorted ∙ sort_rising 0 l (current_timestamp none t) rises in
    (rw (same, status) (timestamps_written-ClimbsTo old new l d ts h.0), rw same rises)

update_status-IsOrdered :
    (e : Event) (clock : ℕ → Time) (row : Run) (s t : Time)
    → Ticks s clock t
    → IsOrdered row s
    → IsOrdered (update_status e clock row).0 t
unfolding update_status
update_status-IsOrdered e clock row s t k h =
    let st : s ≤ t = omega (arith, (k 0).0, (k 0).2) in
    let later : IsOrdered row t = (h.0, RisesTo-mono row s t h.1 st) in
    elim (Option-cases ((step e clock row).1)) [
      | inr (x, q) ↦ rw (update_status, q) later
      | inl q ↦ elim (Option-cases (update_row row (step e clock row).0)) [
        | inl n ↦ rw (update_status, q, n) later
        | inr (r, n) ↦
            rw (update_status, q, n)
              (update_row-IsOrdered row (step e clock row).0 r s t (step-rank e clock row)
                (step-Extends e clock row) n h st (step-RisesTo e clock row s t k h.1))
      ]
    ]

pub update_statuses-IsOrdered :
    (es : List (Event × (ℕ → Time))) (row : Run) (s t : Time)
    → InTurn s es t
    → IsOrdered row s
    → IsOrdered (update_statuses es row) t
unfolding update_statuses
update_statuses-IsOrdered [] row s t k h = (h.0, RisesTo-mono row s t h.1 k)
update_statuses-IsOrdered ((e, clock) ∷ es) row s t (u, ticks, later) h =
    update_statuses-IsOrdered es (update_status e clock row).0 u t later
      (update_status-IsOrdered e clock row s u ticks h)
