-- ===== src/Runner/Allocator/Indexed.antt =====
-- The runners of the allocator, each kept once and under its own identifier.
use otf.Prelude.{
  ◌≡◌, refl, none, some, [], ◌∷◌, arith, All, insert, delete, lookup, lookup-insert, lookup-delete,
}
use otf.Resource.{TfeId, TfeId-discrete}
use otf.Runner.Meta.{RunnerMeta}
use otf.Runner.Allocator.Capacity.{Runners, IsKeyed}

-- The entries stand under the identifiers of their runners, each once.
abbrev pub AreIndexed : Runners → Type 0
AreIndexed [] = Unit
AreIndexed ((id, r) ∷ rest) = (id ≡ r.id) × (lookup TfeId-discrete id rest ≡ none) × AreIndexed rest

pub insert-AreIndexed :
    (r : RunnerMeta) (l : Runners) → AreIndexed l → AreIndexed (insert TfeId-discrete r.id r l)
unfolding insert lookup
insert-AreIndexed r [] h = (refl, refl, tt)
insert-AreIndexed r ((id, x) ∷ l) h =
    ground (arith, insert-AreIndexed r l h.2, lookup-insert TfeId-discrete r.id id r l)

pub delete-AreIndexed :
    (id : TfeId) (l : Runners) → AreIndexed l → AreIndexed (delete TfeId-discrete id l)
unfolding delete lookup
delete-AreIndexed id [] h = tt
delete-AreIndexed id ((j, x) ∷ l) h =
    ground (arith, delete-AreIndexed id l h.2, lookup-delete TfeId-discrete id j l)

-- The entries of `l`, read in a list where they are found.
abbrev AreFound : Runners → Runners → Type 0
AreFound runners l = All (λ e. lookup TfeId-discrete e.1.id runners ≡ some e.1) l

AreFound-cons :
    (id : TfeId) (r : RunnerMeta) (runners l : Runners)
    → lookup TfeId-discrete id runners ≡ none
    → AreFound runners l
    → AreFound ((id, r) ∷ runners) l
unfolding lookup
AreFound-cons id r runners [] n h = tt
AreFound-cons id r runners ((j, x) ∷ l) n h = ground (arith, AreFound-cons id r runners l n h.1)

pub AreIndexed-IsKeyed : (l : Runners) → AreIndexed l → IsKeyed l
unfolding lookup
AreIndexed-IsKeyed [] h = tt
AreIndexed-IsKeyed ((id, r) ∷ l) h =
    (ground arith, AreFound-cons id r l l h.1 (AreIndexed-IsKeyed l h.2))

pub lookup-AreIndexed :
    (id : TfeId) (r : RunnerMeta) (l : Runners)
    → AreIndexed l
    → lookup TfeId-discrete id l ≡ some r
    → id ≡ r.id
unfolding lookup
lookup-AreIndexed id r [] h e = ground arith
lookup-AreIndexed id r ((j, x) ∷ l) h e = ground (arith, lookup-AreIndexed id r l h.2)
