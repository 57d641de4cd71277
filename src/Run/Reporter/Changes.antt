-- ===== src/Run/Reporter/Changes.antt =====
-- internal/run/reporter.go: the statuses that are set of one run are the changes of its status.
use otf.Prelude.{
  ◌≡◌, refl, sym, ap, ◌∙◌, true, false, Option, none, some, List, [], ◌∷◌, Result, ok, err, ◌>>=◌,
  if◌then◌else◌, test, ite_yes, Bool-cases, Option-cases, Result-cases, inl, inr, lookup,
  lookup-insert, lookup-delete, lookup-insert_cases, lookup-delete_cases, refute, affirm, arith,
}
use otf.Resource.{TfeId, TfeId-discrete}
use otf.Pubsub
use otf.Pubsub.{EventType}
use otf.Run.Reporter.{
  VcsStatus, RunEvent, Clients, StatusReport, ReporterError, Cache, gather, is_same, set_report,
  next_cache, handle_run, handle_event, cons_set, start,
}

-- The report that an event calls for.
unfoldable pub due : Clients → Pubsub.Event RunEvent → Result ReporterError (Option StatusReport)
due c e = elim e.type [
  | EventType.deleted ↦ ok none
  | EventType.created ↦ gather c e.payload
  | EventType.updated ↦ gather c e.payload
]

abbrev pub cons_of : TfeId → StatusReport → List StatusReport → List StatusReport
cons_of id r l = if test (TfeId-discrete id r.id) then r ∷ l else l

-- The reports of one run, up to an event that fails.
abbrev pub dues : TfeId → List (Clients × Pubsub.Event RunEvent) → List StatusReport
dues id [] = []
dues id ((c, e) ∷ rest) =
    let later = dues id rest in
    elim (due c e) [ err x ↦ [] | ok o ↦ elim o [ none ↦ later | some r ↦ cons_of id r later ] ]

-- The statuses that differ from the one before, which is forgotten where the run is done.
abbrev pub changes : Option VcsStatus → List StatusReport → List VcsStatus
changes last [] = []
changes last (r ∷ rest) =
    if is_same last r.options.status
    then changes last rest
    else r.options.status ∷ changes (if r.is_done then none else some r.options.status) rest

-- The statuses that are set of one run.
abbrev pub statuses : TfeId → List StatusReport → List VcsStatus
statuses id [] = []
statuses id (r ∷ rest) =
    let later = statuses id rest in
    if test (TfeId-discrete id r.id) then r.options.status ∷ later else later

-- Every report that is due can be set.
abbrev pub CanSet : List (Clients × Pubsub.Event RunEvent) → Type 0
CanSet [] = Unit
CanSet ((c, e) ∷ rest) =
    ((r : StatusReport) → due c e ≡ ok (some r) → r.client r.options ≡ true) × CanSet rest

handle_event-due :
    (c : Clients) (e : Pubsub.Event RunEvent) (cache : Cache)
    → handle_event c e cache ≡ (due c e >>= set_report cache)
unfolding handle_event handle_run due
handle_event-due c e cache = ground arith

start_nil : (cache : Cache) → start cache [] ≡ ([], none)
unfolding start
start_nil cache = refl

start_err :
    (c : Clients) (e : Pubsub.Event RunEvent) (rest : List (Clients × Pubsub.Event RunEvent))
    (cache : Cache) (x : ReporterError)
    → handle_event c e cache ≡ err x
    → start cache ((c, e) ∷ rest) ≡ ([], some x)
unfolding start
start_err c e rest cache x h = ground (arith, h)

start_ok :
    (c : Clients) (e : Pubsub.Event RunEvent) (rest : List (Clients × Pubsub.Event RunEvent))
    (cache next : Cache) (set : Option StatusReport)
    → handle_event c e cache ≡ ok (next, set)
    → start cache ((c, e) ∷ rest) ≡ cons_set set (start next rest)
unfolding start
start_ok c e rest cache next set h = ground (arith, h)

dues_err :
    (id : TfeId) (c : Clients) (e : Pubsub.Event RunEvent)
    (rest : List (Clients × Pubsub.Event RunEvent)) (x : ReporterError)
    → due c e ≡ err x
    → dues id ((c, e) ∷ rest) ≡ []
dues_err id c e rest x h = ground (arith, h)

dues_ok :
    (id : TfeId) (c : Clients) (e : Pubsub.Event RunEvent)
    (rest : List (Clients × Pubsub.Event RunEvent)) (o : Option StatusReport)
    → due c e ≡ ok o
    → dues id ((c, e) ∷ rest)
      ≡ elim o [ none ↦ dues id rest | some r ↦ cons_of id r (dues id rest) ]
dues_ok id c e rest o h = ground (arith, h)

statuses-cons_set :
    (id : TfeId) (r : StatusReport) (p : List StatusReport × Option ReporterError)
    → statuses id (cons_set (some r) p).0 ≡ statuses id (r ∷ p.0)
statuses-cons_set id r (l, e) = refl

-- What the cache holds of a run after a status of it is set.
next_cache_same :
    (r : StatusReport) (cache : Cache)
    → lookup TfeId-discrete r.id (next_cache r cache)
      ≡ (if r.is_done then none else some r.options.status)
next_cache_same r cache = elim (Bool-cases r.is_done) [
  | inl d ↦ rw d (
      lookup-delete TfeId-discrete r.id r.id cache
      ∙ ite_yes (TfeId-discrete r.id r.id) none (lookup TfeId-discrete r.id cache) refl)
  | inr d ↦ rw d (
      lookup-insert TfeId-discrete r.id r.id r.options.status cache
      ∙ ite_yes (TfeId-discrete r.id r.id) (some r.options.status)
          (lookup TfeId-discrete r.id cache) refl)
]

next_cache_other :
    (id : TfeId) (r : StatusReport) (cache : Cache)
    → test (TfeId-discrete id r.id) ≡ false
    → lookup TfeId-discrete id (next_cache r cache) ≡ lookup TfeId-discrete id cache
next_cache_other id r cache n = elim (Bool-cases r.is_done) [
  | inl d ↦
      rw d (lookup-delete_cases TfeId-discrete r.id id cache (refute (TfeId-discrete id r.id) n))
  | inr d ↦ elim (lookup-insert_cases TfeId-discrete r.id id r.options.status cache) [
    | inl (e, at) ↦ absurd (refute (TfeId-discrete id r.id) n e)
    | inr (other, at) ↦ rw d at
  ]
]

unset :
    (r : StatusReport) (cache : Cache)
    → is_same (lookup TfeId-discrete r.id cache) r.options.status ≡ true
    → set_report cache (some r) ≡ ok (cache, none)
unset r cache h = rw h refl

is_set :
    (r : StatusReport) (cache : Cache)
    → is_same (lookup TfeId-discrete r.id cache) r.options.status ≡ false
    → r.client r.options ≡ true
    → set_report cache (some r) ≡ ok (next_cache r cache, some r)
is_set r cache h k = rw (h, k) refl

changes_same :
    (id : TfeId) (r : StatusReport) (cache : Cache) (l : List StatusReport)
    → is_same (lookup TfeId-discrete r.id cache) r.options.status ≡ true
    → changes (lookup TfeId-discrete id cache) (cons_of id r l)
      ≡ changes (lookup TfeId-discrete id cache) l
changes_same id r cache l h = elim (Bool-cases (test (TfeId-discrete id r.id))) [
  | inr n ↦ rw n refl
  | inl y ↦
      let e = affirm (TfeId-discrete id r.id) y in
      rw (y, ap (λ i. is_same (lookup TfeId-discrete i cache) r.options.status) e ∙ h) refl
]

changes_set :
    (id : TfeId) (r : StatusReport) (cache : Cache) (l set : List StatusReport)
    → is_same (lookup TfeId-discrete r.id cache) r.options.status ≡ false
    → statuses id set ≡ changes (lookup TfeId-discrete id (next_cache r cache)) l
    → statuses id (r ∷ set) ≡ changes (lookup TfeId-discrete id cache) (cons_of id r l)
changes_set id r cache l set h later = elim (Bool-cases (test (TfeId-discrete id r.id))) [
  | inr n ↦ rw n (later ∙ ap (λ o. changes o l) (next_cache_other id r cache n))
  | inl y ↦
      let e = affirm (TfeId-discrete id r.id) y in
      let held =
        ap (λ i. lookup TfeId-discrete i (next_cache r cache)) e ∙ next_cache_same r cache in
      rw (y, ap (λ i. is_same (lookup TfeId-discrete i cache) r.options.status) e ∙ h)
        (ap (λ q. r.options.status ∷ q) (later ∙ ap (λ o. changes o l) held))
]

-- Whatever the events, where the host of the repository can be told: the statuses that are set of a
-- run are those of its reports, until an event fails, that differ from the status before, which is
-- forgotten with a run that is done.
pub start-changes :
    (id : TfeId) (events : List (Clients × Pubsub.Event RunEvent)) (cache : Cache)
    → CanSet events
    → statuses id (start cache events).0 ≡ changes (lookup TfeId-discrete id cache) (dues id events)
start-changes id [] cache h = rw (start_nil cache) refl
start-changes id ((c, e) ∷ rest) cache (can, h) = elim (Result-cases (due c e)) [
  | inr (x, d) ↦
      rw
        (
          start_err c e rest cache x
              (handle_event-due c e cache ∙ ap (λ q. q >>= set_report cache) d),
          dues_err id c e rest x d,
        )
        refl
  | inl (o, d) ↦
      let handled = handle_event-due c e cache ∙ ap (λ q. q >>= set_report cache) d in
      elim (Option-cases o) [
        | inl n ↦
            rw
              (
                start_ok c e rest cache cache none (handled ∙ ap (set_report cache) n),
                dues_ok id c e rest o d,
                n,
              )
              (start-changes id rest cache h)
        | inr (r, s) ↦
            let due_here =
              dues_ok id c e rest o d
              ∙ ap (λ q. elim q [ none ↦ dues id rest | some r ↦ cons_of id r (dues id rest) ]) s in
            elim (Bool-cases (is_same (lookup TfeId-discrete r.id cache) r.options.status)) [
              | inl same ↦
                  rw
                    (
                      start_ok c e rest cache cache none
                          (handled ∙ ap (set_report cache) s ∙ unset r cache same),
                      due_here,
                    )
                    (start-changes id rest cache h
                      ∙ sym (changes_same id r cache (dues id rest) same))
              | inr differs ↦
                  rw
                    (
                      start_ok c e rest cache (next_cache r cache) (some r) (
                          handled
                          ∙ ap (set_report cache) s
                          ∙ is_set r cache differs (can r (d ∙ ap ok s))),
                      due_here,
                      statuses-cons_set id r (start (next_cache r cache) rest),
                    )
                    (changes_set id r cache (dues id rest) (start (next_cache r cache) rest).0
                      differs (start-changes id rest (next_cache r cache) h))
            ]
      ]
]
