-- ===== src/Vcs/RoundTrip.antt =====
-- internal/vcs/repo.go: a repository's name is read back from its text.
use Prim.Native.String.{len}
use otf.Prelude.{◌≡◌, ◌↔◌, ◌≤◌, String, some, ok, arith, false, Option-cases, inl, inr, subst}
use otf.Prelude.Text.{has, split_last, split_last-append, split_last_parts}
use otf.Vcs.{Repo, slash, of_last, new_repo_from_string, repo_string}

of_last_parts :
    (owner name : String) (r : Repo)
    → of_last (some (owner, name)) ≡ ok r
    → (r.owner ≡ owner) × (r.name ≡ name) × (1 ≤ len name)
of_last_parts owner name r h = ground (arith, h)

read :
    (s : String) (r : Repo)
    → new_repo_from_string s ≡ ok r
    → (repo_string r ≡ s) × (has slash r.name ≡ false) × (1 ≤ len r.name)
unfolding new_repo_from_string
read s r h = elim (Option-cases (split_last slash s)) [
  | inl n ↦ absurd (ground (arith, rw n at h))
  | inr ((owner, name), e) ↦
      let parts = of_last_parts owner name r (rw e at h) in
      let cut = split_last_parts slash s owner name e in
      (cc (cut.0, parts.0, parts.1), cc (cut.1, parts.1), rw parts.1 parts.2)
]

written :
    (r : Repo)
    → has slash r.name ≡ false
    → 1 ≤ len r.name
    → new_repo_from_string (repo_string r) ≡ ok r
unfolding new_repo_from_string
written r h l = rw (split_last-append slash r.owner r.name h) (ground (arith, l))

-- A text is read as a repository just when it is what the repository is written as, and the name of
-- the repository is not empty and has no slash; the owner may have slashes, as the groups of a
-- host do.
pub new_repo_from_string_iff :
    (s : String) (r : Repo)
    → (new_repo_from_string s ≡ ok r)
      ↔ ((repo_string r ≡ s) × (has slash r.name ≡ false) × (1 ≤ len r.name))
new_repo_from_string_iff s r =
    (read s r, λ (e, h, l). subst (λ t. new_repo_from_string t ≡ ok r) e (written r h l))
