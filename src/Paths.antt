-- ===== src/Paths.antt =====
-- src/naiw_tasks/naiw_tasks/path_validation.py: a bind source must resolve below a prefix. A
-- resolved path is the list of its components.
use neotolis_ai_workbench.Base.{◌≡◌, refl, String, Bool, true, false, Option, none, some, List, []}
use neotolis_ai_workbench.Base.{
  ◌∷◌, ◌++◌, str_eq, if◌then◌else◌, eq_iff, Bool-cases, inl, inr, sym, ap, ◌∙◌,
}

abbrev pub FilePath : Type 0
FilePath = List String

-- `path.is_relative_to(prefix)`
unfoldable pub is_relative_to : FilePath → FilePath → Bool
is_relative_to path [] = true
is_relative_to [] (q ∷ prefix) = false
is_relative_to (p ∷ path) (q ∷ prefix) = if str_eq p q then is_relative_to path prefix else false

pub data Validated : Type 0 where
  resolved : FilePath → Validated
  missing : Validated
  escapes : Validated

check_prefix : FilePath → FilePath → Validated
check_prefix path prefix = if is_relative_to path prefix then resolved path else escapes

-- The three resolved paths: of the source, of the data root and of the prefix.
check_resolved : Option FilePath → Option FilePath → Option FilePath → Validated
check_resolved none _ _ = missing
check_resolved (some path) none _ = missing
check_resolved (some path) (some root) none = missing
check_resolved (some path) (some root) (some pfx) = check_prefix path pfx

-- `resolve` is `Path.resolve(strict=True)`: it follows symbolic links, and `none` is its
-- FileNotFoundError.
unfoldable pub validate_bind_source :
    (FilePath → Option FilePath) → FilePath → FilePath → FilePath → Validated
unfolding check_resolved check_prefix is_relative_to
validate_bind_source resolve source data_root prefix =
    check_resolved (resolve source) (resolve data_root) (resolve prefix)

is_relative_to-append :
    (path prefix : FilePath)
    → is_relative_to path prefix ≡ true
    → (rest : FilePath) × (path ≡ prefix ++ rest)
unfolding is_relative_to
is_relative_to-append path [] h = (path, refl)
is_relative_to-append [] (q ∷ prefix) h = cc
is_relative_to-append (p ∷ path) (q ∷ prefix) h = elim (Bool-cases (str_eq p q)) [
  | inl e ↦
      let (rest, r) = is_relative_to-append path prefix (rw e at h) in
      (rest, cc ((eq_iff p q).0 e, r))
  | inr n ↦ cc (rw n at h)
]

check_prefix_sound :
    (s pfx : FilePath) {path : FilePath}
    → check_prefix s pfx ≡ resolved path
    → (s ≡ path) × ((rest : FilePath) × (path ≡ pfx ++ rest))
unfolding check_prefix
check_prefix_sound s pfx {path} h = elim (Bool-cases (is_relative_to s pfx)) [
  | inl e ↦
      let same : s ≡ path = cc (rw e at h) in
      let (rest, r) = is_relative_to-append s pfx e in (same, (rest, sym same ∙ r))
  | inr n ↦ cc (rw n at h)
]

check_resolved_sound :
    (s r p : Option FilePath) {path : FilePath}
    → check_resolved s r p ≡ resolved path
    → (pfx : FilePath) × (s ≡ some path)
      × (p ≡ some pfx)
      × ((rest : FilePath) × (path ≡ pfx ++ rest))
unfolding check_resolved
check_resolved_sound none r p h = cc
check_resolved_sound (some s) none p h = cc
check_resolved_sound (some s) (some r) none h = cc
check_resolved_sound (some s) (some r) (some p) h =
    let (same, below) = check_prefix_sound s p h in (p, ap some same, refl, below)

-- A validated source resolves to a path below the resolved prefix, link targets included.
pub validate_bind_source_sound :
    (resolve : FilePath → Option FilePath) (source data_root prefix : FilePath) {path : FilePath}
    → validate_bind_source resolve source data_root prefix ≡ resolved path
    → (pfx : FilePath) × (resolve source ≡ some path)
      × (resolve prefix ≡ some pfx)
      × ((rest : FilePath) × (path ≡ pfx ++ rest))
unfolding validate_bind_source
validate_bind_source_sound resolve source data_root prefix h =
    check_resolved_sound (resolve source) (resolve data_root) (resolve prefix) h
