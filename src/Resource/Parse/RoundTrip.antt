-- ===== src/Resource/Parse/RoundTrip.antt =====
-- internal/resource/tfe_id.go: what is read is what was written.
use Prim.Native.Char.{Char, code}
use Prim.Native.String.{◌++◌, len}
use Prim.Native.String.len
use Prim.Native.String.append
use text.Mathlib.TextPositions.{len_utf8-pos}
use otf.Prelude.{
  ◌==◌, ℕ, zero, suc, ◌%◌, ◌≤◌, ◌≡◌, refl, ◌↔◌, Bool, true, false, ◌&&◌, not, String, List, [], ◌∷◌,
  none, some, ok, arith, All, length, get_elem?, inl, inr, Option-cases, subst, ap, ◌∙◌,
}
use otf.Prelude.Text.{has, split, join, join-split, split-append, split_none, split-has}
use otf.Resource.{
  Kind, TfeId, kind_string, id_string, tfe, site_kind, organization_kind, workspace_kind, run_kind,
  config_version_kind, ingress_attributes_kind, job_kind, chunk_kind, user_kind, team_kind,
  module_kind, module_version_kind, notification_configuration_kind, agent_pool_kind, runner_kind,
  state_version_kind, state_version_output_kind, variable_set_kind, variable_kind,
  vcs_provider_kind, organization_token_kind, user_token_kind, team_token_kind, agent_token_kind,
  ssh_key_kind, private_key_kind, run_trigger_kind, github_app_kind, plan_file_kind, tag_kind,
  entitlement_kind, lock_file_kind,
}
use otf.Resource.Parse.{
  RawId, dash, checked, of_parts, parse_tfe_id, raw_string, base58, random_string, new_tfe_id,
  convert,
}

-- A kind of two bytes or more and an identifier that is not empty, neither with a dash.
abbrev pub IsWellFormed : RawId → Type 0
IsWellFormed r =
    (has dash r.kind ≡ false) × (has dash r.id ≡ false) × (2 ≤ len r.kind) × (1 ≤ len r.id)

parse_written : (r : RawId) → IsWellFormed r → parse_tfe_id (raw_string r) ≡ ok r
unfolding parse_tfe_id
parse_written r h =
    rw (split-append dash r.kind r.id h.0, split_none dash r.id h.1) (ground (arith, h.2, h.3))

checked_parts :
    (kind id : String) (r : RawId)
    → checked kind id ≡ ok r
    → (r.kind ≡ kind) × (r.id ≡ id) × (2 ≤ len kind) × (1 ≤ len id)
checked_parts kind id r h = ground (arith, h)

written_parts :
    (s : String) (r : RawId) (ws : List String)
    → join dash ws ≡ s
    → All (λ w. has dash w ≡ false) ws
    → of_parts ws ≡ ok r
    → (raw_string r ≡ s) × IsWellFormed r
written_parts s r [] j a h = absurd (ground (arith, h))
written_parts s r (kind ∷ []) j a h = absurd (ground (arith, h))
written_parts s r (kind ∷ id ∷ []) j a h =
    let parts = checked_parts kind id r h in
    (
      cc (j, parts.0, parts.1),
      (cc (a.0, parts.0), cc (a.1.0, parts.1), rw parts.0 parts.2, rw parts.1 parts.3),
    )
written_parts s r (kind ∷ id ∷ other ∷ ws) j a h = absurd (ground (arith, h))

-- A text is read as an identifier just when it is what the identifier is written as, and the
-- identifier is well-formed: a kind of two bytes or more and a suffix that is not empty, neither
-- with a dash.
pub parse_tfe_id_iff :
    (s : String) (r : RawId) → (parse_tfe_id s ≡ ok r) ↔ ((raw_string r ≡ s) × IsWellFormed r)
unfolding parse_tfe_id
parse_tfe_id_iff s r = (
  written_parts s r (split dash s) (join-split dash s) (split-has dash s),
  λ h. subst (λ t. parse_tfe_id t ≡ ok r) h.0 (parse_written r h.1),
)

kind_fits : (k : Kind) → (has dash (kind_string k) ≡ false) × (2 ≤ len (kind_string k))
unfolding has
kind_fits site_kind = (refl, omega arith)
kind_fits organization_kind = (refl, omega arith)
kind_fits workspace_kind = (refl, omega arith)
kind_fits run_kind = (refl, omega arith)
kind_fits config_version_kind = (refl, omega arith)
kind_fits ingress_attributes_kind = (refl, omega arith)
kind_fits job_kind = (refl, omega arith)
kind_fits chunk_kind = (refl, omega arith)
kind_fits user_kind = (refl, omega arith)
kind_fits team_kind = (refl, omega arith)
kind_fits module_kind = (refl, omega arith)
kind_fits module_version_kind = (refl, omega arith)
kind_fits notification_configuration_kind = (refl, omega arith)
kind_fits agent_pool_kind = (refl, omega arith)
kind_fits runner_kind = (refl, omega arith)
kind_fits state_version_kind = (refl, omega arith)
kind_fits state_version_output_kind = (refl, omega arith)
kind_fits variable_set_kind = (refl, omega arith)
kind_fits variable_kind = (refl, omega arith)
kind_fits vcs_provider_kind = (refl, omega arith)
kind_fits organization_token_kind = (refl, omega arith)
kind_fits user_token_kind = (refl, omega arith)
kind_fits team_token_kind = (refl, omega arith)
kind_fits agent_token_kind = (refl, omega arith)
kind_fits ssh_key_kind = (refl, omega arith)
kind_fits private_key_kind = (refl, omega arith)
kind_fits run_trigger_kind = (refl, omega arith)
kind_fits github_app_kind = (refl, omega arith)
kind_fits plan_file_kind = (refl, omega arith)
kind_fits tag_kind = (refl, omega arith)
kind_fits entitlement_kind = (refl, omega arith)
kind_fits lock_file_kind = (refl, omega arith)

-- No letter is a dash.
abbrev free : List Char → Bool
free [] = true
free (c ∷ cs) = not (code c == code dash) && free cs

free-get_elem :
    (cs : List Char) (i : ℕ) (c : Char)
    → free cs ≡ true
    → get_elem? cs i ≡ some c
    → (code c == code dash) ≡ false
free-get_elem [] i c f e = absurd (ground (arith, e))
free-get_elem (b ∷ cs) zero c f e = ground (arith, f, e)
free-get_elem (b ∷ cs) (suc i) c f e = free-get_elem cs i c (ground (arith, f)) e

get_elem-none : (cs : List Char) (i : ℕ) → get_elem? cs i ≡ none → length cs ≤ i
get_elem-none [] i e = omega arith
get_elem-none (c ∷ cs) zero e = absurd (ground (arith, e))
get_elem-none (c ∷ cs) (suc i) e = omega (arith, get_elem-none cs i e)

has-random : (draw : ℕ → ℕ) (n : ℕ) → has dash (random_string draw n base58) ≡ false
unfolding random_string has
has-random draw zero = refl
has-random draw (suc n) = elim (Option-cases (get_elem? base58 (draw n % length base58))) [
  | inl e ↦ rw e (has-random draw n)
  | inr (c, e) ↦
      let other = free-get_elem base58 (draw n % length base58) c refl e in
      rw (e, other) (has-random draw n)
]

random_pos : (draw : ℕ → ℕ) (n : ℕ) → 1 ≤ len (random_string draw (suc n) base58)
unfolding random_string
random_pos draw n = elim (Option-cases (get_elem? base58 (draw n % length base58))) [
  | inl e ↦ absurd (omega (arith, get_elem-none base58 (draw n % length base58) e))
  | inr (c, e) ↦ rw e rw (len.cons c (random_string draw n base58)) (ground (arith, len_utf8-pos c))
]

dash-append : (s : String) → "-" ++ s ≡ String.◌∷◌ dash s
dash-append s = append.cons dash "" s ∙ ap (String.◌∷◌ dash) (append.nil s)

read_back :
    (i : TfeId)
    → has dash i.id ≡ false
    → 1 ≤ len i.id
    → parse_tfe_id (id_string (tfe i)) ≡ ok (record { kind = kind_string i.kind; id = i.id })
read_back i h l =
    let fits = kind_fits i.kind in
    rw (dash-append i.id)
      (parse_written (record { kind = kind_string i.kind; id = i.id }) (fits.0, h, fits.1, l))

-- An identifier that is made up is read back from its text, whatever is drawn, and so is one that
-- is converted to another kind.
pub parse-new_tfe_id :
    (draw : ℕ → ℕ) (kind to : Kind)
    → (parse_tfe_id (id_string (tfe (new_tfe_id draw kind)))
        ≡ ok (record { kind = kind_string kind; id = (new_tfe_id draw kind).id }))
      × (parse_tfe_id (id_string (tfe (convert (new_tfe_id draw kind) to)))
          ≡ ok (record { kind = kind_string to; id = (new_tfe_id draw kind).id }))
unfolding new_tfe_id
parse-new_tfe_id draw kind to = (
  read_back (new_tfe_id draw kind) (has-random draw 16) (random_pos draw 15),
  read_back (convert (new_tfe_id draw kind) to) (has-random draw 16) (random_pos draw 15),
)
