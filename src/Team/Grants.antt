-- ===== src/Team/Grants.antt =====
-- internal/team/team.go: how an update changes what a team may do.
use otf.Prelude.{
  ◌≡◌, refl, ◌⊎◌, inl, inr, Bool, true, false, ◌&&◌, ◌||◌, Option, none, some, arith, or_keep,
  if◌then◌else◌, Bool-cases, test,
}
use otf.Resource.{Action, Kind, ResourceId-discrete, site}
use otf.Authz.Request.{Request, organization, is_outside}
use otf.Team.{Team, TeamOptions, update, can_access, by_roles, by_membership, is_owners}

-- An option that does not take a permission away.
abbrev pub Keeps : Option Bool → Type 0
Keeps o = (o ≡ none) ⊎ (o ≡ some true)

-- A flag that stays set where it is set.
abbrev Grows : Bool → Bool → Type 0
Grows a b = (a ≡ false) ⊎ (b ≡ true)

kept : (o : Option Bool) (b : Bool) → Keeps o → Grows b (or_keep o b)
kept none b h = elim (Bool-cases b) [ inl e ↦ inr e | inr e ↦ inl e ]
kept (some true) b h = inr refl
kept (some false) b (inl n) = absurd (ground (arith, n))
kept (some false) b (inr n) = absurd (ground (arith, n))

-- A disjunction of grants grows with its flags.
or_keeps :
    (a b c d w v m w' v' m' : Bool)
    → Grows w w'
    → Grows v v'
    → Grows m m'
    → (a || (w && b) || (v && c) || (m && d)) ≡ true
    → (a || (w' && b) || (v' && c) || (m' && d)) ≡ true
or_keeps true b c d w v m w' v' m' hw hv hm h = refl
or_keeps false b c d w v m w' v' m' hw hv hm h = ground (arith, hw, hv, hm, h)

update-by_roles :
    (opts : TeamOptions) (t : Team) (action : Action) (kind : Kind)
    → Keeps opts.access.manage_workspaces
    → Keeps opts.access.manage_vcs
    → Keeps opts.access.manage_modules
    → by_roles t action kind ≡ true
    → by_roles (update opts t) action kind ≡ true
unfolding update
update-by_roles opts t action kind w v m h =
    or_keeps _ _ _ _ t.manage_workspaces t.manage_vcs t.manage_modules _ _ _
      (kept opts.access.manage_workspaces t.manage_workspaces w)
      (kept opts.access.manage_vcs t.manage_vcs v)
      (kept opts.access.manage_modules t.manage_modules m) h

-- The order of the tests of `can_access`.
tests_keep :
    (at_site outside owners roles roles' rest : Bool)
    → (roles ≡ true → roles' ≡ true)
    → (if at_site then false else if outside then false else if owners || roles then true else rest)
      ≡ true
    → (if at_site
        then false
        else if outside
        then false
        else if owners || roles'
        then true
        else rest)
      ≡ true
tests_keep true outside owners roles roles' rest g h = h
tests_keep false true owners roles roles' rest g h = h
tests_keep false false true roles roles' rest g h = refl
tests_keep false false false true roles' rest g h = rw (g refl) refl
tests_keep false false false false true rest g h = refl
tests_keep false false false false false rest g h = h

-- An update that does not rename the team, and takes none of the permissions on workspaces, VCS
-- providers and modules away, leaves the team whatever access it had.
pub update-can_access :
    (opts : TeamOptions) (t : Team) (action : Action) (kind : Kind) (req : Request)
    → opts.name ≡ none
    → Keeps opts.access.manage_workspaces
    → Keeps opts.access.manage_vcs
    → Keeps opts.access.manage_modules
    → can_access t action kind req ≡ true
    → can_access (update opts t) action kind req ≡ true
unfolding can_access update
update-can_access opts t action kind req n w v m h = rw n (
    tests_keep (test (ResourceId-discrete req.id site))
      (is_outside (organization req) t.organization) (is_owners t) (by_roles t action kind)
      (by_roles (update opts t) action kind) (by_membership t action kind req)
      (update-by_roles opts t action kind w v m) h)
