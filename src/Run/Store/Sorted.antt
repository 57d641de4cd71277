-- ===== src/Run/Store/Sorted.antt =====
-- internal/run/db.go: timestamps that rise are read as they were written.
use otf.Prelude.{ℕ, ◌≤◌, ◌<◌, ◌≡◌, refl, sym, subst, ap, ◌∙◌, List, [], ◌∷◌, ◌++◌, arith, ok}
use otf.Time.{Time}
use otf.Run.Status.{Status, Status-discrete}
use otf.Run.Types.{Run, StatusTimestamp}
use otf.Run.Lifecycle.{
  Event, enqueues_plan, enqueues_apply, starts, discards, finishes, cancels, step, find_status,
  move_to,
}
use otf.Run.Lifecycle.Clock.{IsRising}
use otf.Run.Store.{insert_by_time, sort_by_time}
use otf.Run.Store.Ranks.{rank, ClimbsTo}

abbrev time_of : StatusTimestamp → Time
time_of x = x.timestamp

pub sort_rising :
    (a : Time) (l : List StatusTimestamp) (b : Time)
    → IsRising a l b
    → sort_by_time (λ x. x.timestamp) l ≡ l
sort_rising a [] b h = refl
sort_rising a (x ∷ []) b h = refl
sort_rising a (x ∷ y ∷ l) b h =
    ap (insert_by_time (λ z. z.timestamp) x) (sort_rising x.timestamp (y ∷ l) b h.1)
    ∙ ground (arith, h.1.0)

-- A list with another in front of it.
abbrev pub Extends : List StatusTimestamp → List StatusTimestamp → Type 0
Extends [] l = Unit
Extends (x ∷ xs) [] = ⊥
Extends (x ∷ xs) (y ∷ ys) = (x ≡ y) × Extends xs ys

Extends-refl : (l : List StatusTimestamp) → Extends l l
Extends-refl [] = tt
Extends-refl (x ∷ l) = (refl, Extends-refl l)

Extends-snoc :
    (l m : List StatusTimestamp) (x : StatusTimestamp) → Extends l m → Extends l (m ++ x ∷ [])
Extends-snoc [] m x h = tt
Extends-snoc (y ∷ l) [] x h = absurd h
Extends-snoc (y ∷ l) (z ∷ m) x h = (h.0, Extends-snoc l m x h.1)

kept : (r : Run) → Extends r.status_timestamps r.status_timestamps
kept r = Extends-refl r.status_timestamps

move_to-Extends :
    (u : Status) (t : Time) (r : Run)
    → Extends r.status_timestamps (move_to u t r).status_timestamps
move_to-Extends u t r =
    Extends-snoc r.status_timestamps r.status_timestamps _ (Extends-refl r.status_timestamps)

moves-Extends :
    (u v : Status) (t t' : Time) (r : Run)
    → Extends r.status_timestamps (move_to v t' (move_to u t r)).status_timestamps
moves-Extends u v t t' r =
    Extends-snoc r.status_timestamps (move_to u t r).status_timestamps _ (move_to-Extends u t r)

-- An operation only adds timestamps.
pub step-Extends :
    (e : Event) (clock : ℕ → Time) (r : Run)
    → Extends r.status_timestamps (step e clock r).0.status_timestamps
unfolding step
step-Extends enqueues_plan clock r =
    ground (arith, kept r, move_to-Extends Status.plan_queued (clock 0) r)
step-Extends enqueues_apply clock r =
    ground (arith, kept r, move_to-Extends Status.apply_queued (clock 0) r)
step-Extends starts clock r = ground (
  arith,
  kept r,
  move_to-Extends Status.planning (clock 0) r,
  move_to-Extends Status.applying (clock 2) r,
)
step-Extends discards clock r = ground (arith, kept r, move_to-Extends Status.discarded (clock 0) r)
step-Extends (finishes phase failed) clock r = ground (
  arith,
  kept r,
  move_to-Extends Status.errored (clock 0) r,
  move_to-Extends Status.errored (clock 8) r,
  move_to-Extends Status.applied (clock 10) r,
  move_to-Extends Status.planned (clock 4) r,
  move_to-Extends Status.cost_estimated (clock 3) r,
  moves-Extends Status.planned Status.planned_and_finished (clock 4) (clock 6) r,
  moves-Extends Status.cost_estimated Status.planned_and_finished (clock 3) (clock 6) r,
)
step-Extends (cancels user force) clock r = ground (
  arith,
  kept r,
  move_to-Extends Status.canceled (clock 12) r,
  move_to-Extends Status.force_canceled (clock 11) r,
)

IsRising-le : (a : Time) (l : List StatusTimestamp) (b : Time) → IsRising a l b → a ≤ b
IsRising-le a [] b h = h
IsRising-le a (x ∷ l) b h = omega (arith, h.0, IsRising-le x.timestamp l b h.1)

found_between :
    (a : Time) (l : List StatusTimestamp) (b : Time) (u : Status) (t : Time)
    → IsRising a l b
    → find_status u l ≡ ok t
    → (a ≤ t) × (t ≤ b)
unfolding find_status
found_between a [] b u t h f = absurd (ground (arith, f))
found_between a (x ∷ l) b u t h f = elim (Status-discrete x.status u) [
  | yes e ↦
      let same : x.timestamp ≡ t = ground (arith, e, f) in
      (omega (arith, same, h.0), omega (arith, same, IsRising-le x.timestamp l b h.1))
  | no n ↦
      let later : find_status u l ≡ ok t = ground (arith, n, f) in
      let (low, high) = found_between x.timestamp l b u t h.1 later in
      (omega (arith, low, h.0), high)
]

-- The timestamp that is written of a new status is not before the others.
pub found_rises :
    (a : Time) (old new : List StatusTimestamp) (b : Time) (s u : Status) (t : Time)
    → Extends old new
    → IsRising a new b
    → ClimbsTo old s
    → rank s < rank u
    → find_status u new ≡ ok t
    → IsRising a (old ++ record { status = u; timestamp = t } ∷ []) b
unfolding find_status
found_rises a [] new b s u t e r c k f = absurd c
found_rises a (x ∷ old) [] b s u t e r c k f = absurd e
found_rises a (x ∷ []) (y ∷ new) b s u t e r c k f =
    let at : x.timestamp ≡ y.timestamp = ap time_of e.0 in
    let later : find_status u new ≡ ok t = ground (arith, e.0, c, k, f) in
    let (low, high) = found_between y.timestamp new b u t r.1 later in
    (omega (arith, at, r.0), (omega (arith, at, low), high))
found_rises a (x ∷ z ∷ old) (y ∷ new) b s u t e r c k f =
    let at : x.timestamp ≡ y.timestamp = ap time_of e.0 in
    let later : find_status u new ≡ ok t = ground (arith, e.0, c.0, k, f) in
    (
      omega (arith, at, r.0),
      found_rises x.timestamp (z ∷ old) new b s u t e.1 (subst (λ q. IsRising q new b) (sym at) r.1)
          c.1 k later,
    )
