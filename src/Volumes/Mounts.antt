-- ===== src/Volumes/Mounts.antt =====
-- Where the mounts of a task container come from.
use mathlib.Core.Path.{subst}
use mathlib.Core.List.{Memᴰ}
use mathlib.Core.Option.{some-injective}
use neotolis_ai_workbench.Base.{
  ◌≡◌, refl, String, ◌<>◌, Bool, true, false, Option, none, some, List, [], ◌∷◌, ◌++◌, inl, inr,
  str_eq, eq_iff, Bool-cases, All,
}
use neotolis_ai_workbench.Paths.{
  FilePath, Validated, resolved, missing, escapes, validate_bind_source, validate_bind_source_sound,
}
use neotolis_ai_workbench.Effects.{Bind, Result, ok, err}
use neotolis_ai_workbench.Volumes.{
  and_then, relative_to, put, same_path, source_of, below, mount, validated, mount_secrets,
  build_volumes,
}

relative_to-append :
    (path prefix : FilePath) {rest : FilePath}
    → relative_to path prefix ≡ some rest
    → path ≡ prefix ++ rest
unfolding relative_to
relative_to-append path [] h = some-injective _ _ h
relative_to-append [] (q ∷ prefix) h = cc h
relative_to-append (p ∷ path) (q ∷ prefix) h = elim (Bool-cases (str_eq p q)) [
  | inl e ↦ cc ((eq_iff p q).0 e, relative_to-append path prefix (rw e at h))
  | inr n ↦ cc (rw n at h)
]

and_then-ok :
    {A B : Type 0} (r : Result A) (f : A → Result B) {b : B}
    → and_then r f ≡ ok b
    → (a : A) × (r ≡ ok a) × (f a ≡ ok b)
unfolding and_then
and_then-ok (ok a) f h = (a, refl, h)
and_then-ok (err e) f h = cc h

source_of-ok : (v : Validated) {path : FilePath} → source_of v ≡ ok path → v ≡ resolved path
unfolding source_of
source_of-ok (resolved p) h = cc h
source_of-ok missing h = cc h
source_of-ok escapes h = cc h

below-ok :
    (host : FilePath) (r : Option FilePath) {path : FilePath}
    → below host r ≡ ok path
    → (rest : FilePath) × (r ≡ some rest) × (path ≡ host ++ rest)
unfolding below
below-ok host none h = cc h
below-ok host (some rest) h = (rest, refl, cc h)

put-All : (P : Bind → Type 0) (b : Bind) (vs : List Bind) → P b → All P vs → All P (put b vs)
unfolding put
put-All P b [] h a = (h, tt)
put-All P b (c ∷ cs) h (x, a) = elim (Bool-cases (same_path c.source b.source)) [
  | inl e ↦ rw e (h, a)
  | inr n ↦ rw n (x, put-All P b cs h a)
]

module _ (resolve : FilePath → Option FilePath) (data_root host_root : FilePath) where
  -- The mount has its source, at its path on the host, below the resolved `prefix`.
  pub record Below (prefix : FilePath) (source : FilePath) (b : Bind) : Type 0 where
    pub path : FilePath
    pub pfx : FilePath
    pub rest : FilePath
    pub inside : FilePath
    pub resolves : resolve source ≡ some path
    pub prefix_resolves : resolve prefix ≡ some pfx
    pub below_prefix : path ≡ pfx ++ rest
    pub in_data : path ≡ data_root ++ inside
    pub on_host : b.source ≡ host_root ++ inside

  -- What a task is given of its own, where, and whether it is read-only.
  abbrev pub own_mounts : FilePath → List (FilePath × String × Bool)
  own_mounts task_dir =
      (task_dir ++ "work" ∷ [], "/work", false)
      ∷ (task_dir ++ "io" ∷ [], "/io", false)
      ∷ (task_dir ++ "storage" ∷ [], "/home/pi", false)
      ∷ (data_root ++ "pi-packages" ∷ [], "/pi-packages", true)
      ∷ []

  -- A mount of the task, or of a secret: that one is read-only, and lies in the directory of secrets.
  pub data Safe (task_dir : FilePath) (secrets : List String) (b : Bind) : Type 0 where
    own :
        (source : FilePath)
        → Memᴰ (source, b.target, b.read_only) (own_mounts task_dir)
        → Below data_root source b
        → Safe task_dir secrets b
    secret :
        (name : String)
        → Memᴰ name secrets
        → Below (data_root ++ "secrets" ∷ []) ((data_root ++ "secrets" ∷ []) ++ name ∷ []) b
        → b.target ≡ "/run/secrets/" <> name
        → b.read_only ≡ true
        → Safe task_dir secrets b

  mount-All :
      (P : Bind → Type 0) (path : FilePath) (target : String) (ro : Bool) (vs : List Bind)
      {vs' : List Bind}
      → mount resolve data_root host_root path target ro vs ≡ ok vs'
      → ((source inside : FilePath)
          → path ≡ data_root ++ inside
          → source ≡ host_root ++ inside
          → P (record { source = source; target = target; read_only = ro }))
      → All P vs
      → All P vs'
  unfolding mount
  mount-All P path target ro vs {vs'} h f a =
      let (source, e, k) = and_then-ok (below host_root (relative_to path data_root)) _ h in
      let (inside, r, on) = below-ok host_root (relative_to path data_root) e in
      let b : Bind = record { source = source; target = target; read_only = ro } in
      let same : put b vs ≡ vs' = cc k in
      subst (All P) same
        (put-All P b vs (f source inside (relative_to-append path data_root r) on) a)

  validated-Below :
      (source prefix : FilePath) (b : Bind) {path : FilePath} (inside : FilePath)
      → validated resolve data_root host_root source prefix ≡ ok path
      → path ≡ data_root ++ inside
      → b.source ≡ host_root ++ inside
      → Below prefix source b
  unfolding validated
  validated-Below source prefix b {path} inside h p on =
      let (pfx, r, q, (rest, e)) =
        validate_bind_source_sound resolve source data_root prefix
          (source_of-ok (validate_bind_source resolve source data_root prefix) h) in
      record {
        path = path;
        pfx = pfx;
        rest = rest;
        inside = inside;
        resolves = r;
        prefix_resolves = q;
        below_prefix = e;
        in_data = p;
        on_host = on;
      }

  module _ (task_dir : FilePath) (all_secrets : List String) where
    own-Safe :
        (source : FilePath) (path : FilePath) (target : String) (ro : Bool) (vs : List Bind)
        {vs' : List Bind}
        → Memᴰ (source, target, ro) (own_mounts task_dir)
        → validated resolve data_root host_root source data_root ≡ ok path
        → mount resolve data_root host_root path target ro vs ≡ ok vs'
        → All (Safe task_dir all_secrets) vs
        → All (Safe task_dir all_secrets) vs'
    own-Safe source path target ro vs l v h a =
        mount-All (Safe task_dir all_secrets) path target ro vs h
          (λ s i p on. own source l (validated-Below source data_root _ i v p on)) a

    mount_secrets-Safe :
        (secrets : List String) (vs : List Bind) {vs' : List Bind}
        → ((name : String) → Memᴰ name secrets → Memᴰ name all_secrets)
        → mount_secrets resolve data_root host_root secrets vs ≡ ok vs'
        → All (Safe task_dir all_secrets) vs
        → All (Safe task_dir all_secrets) vs'
    unfolding mount_secrets
    mount_secrets-Safe [] vs {vs'} l h a =
        let same : vs ≡ vs' = cc h in subst (All (Safe task_dir all_secrets)) same a
    mount_secrets-Safe (name ∷ secrets) vs l h a =
        let dir = data_root ++ "secrets" ∷ [] in
        let (path, v, k) =
          and_then-ok (validated resolve data_root host_root (dir ++ name ∷ []) dir) _ h in
        let (next, m, rest) =
          and_then-ok (mount resolve data_root host_root path ("/run/secrets/" <> name) true vs) _
            k in
        mount_secrets-Safe secrets next (λ n q. l n (Memᴰ.tail q)) rest
          (mount-All (Safe task_dir all_secrets) path ("/run/secrets/" <> name) true vs m
            (λ s i p on.
              secret name (l name (Memᴰ.head refl))
                (validated-Below (dir ++ name ∷ []) dir _ i v p on) refl refl)
            a)

  -- Every mount that a task container is given is one of two kinds. Either it is one of the four of the
  -- task: its work, io and storage at /work, /io and /home/pi, to be written, and pi-packages at
  -- /pi-packages, read-only, and the source resolves below the data root. Or it is that of a secret that
  -- was asked for: at /run/secrets/ with the name, read-only, and the source resolves below the directory of
  -- secrets. The mount is at the path that the source has on the host.
  pub build_volumes-Safe :
      (task_dir : FilePath) (secrets : List String) {volumes : List Bind}
      → build_volumes resolve data_root host_root task_dir secrets ≡ ok volumes
      → All (Safe task_dir secrets) volumes
  unfolding build_volumes
  build_volumes-Safe task_dir secrets h =
      let V : FilePath → Result FilePath = λ s. validated resolve data_root host_root s data_root in
      let (work, v₁, h) = and_then-ok (V (task_dir ++ "work" ∷ [])) _ h in
      let (io, v₂, h) = and_then-ok (V (task_dir ++ "io" ∷ [])) _ h in
      let (storage, v₃, h) = and_then-ok (V (task_dir ++ "storage" ∷ [])) _ h in
      let (pkgs, v₄, h) = and_then-ok (V (data_root ++ "pi-packages" ∷ [])) _ h in
      let (a, m₁, h) = and_then-ok (mount resolve data_root host_root work "/work" false []) _ h in
      let (b, m₂, h) = and_then-ok (mount resolve data_root host_root io "/io" false a) _ h in
      let (c, m₃, h) =
        and_then-ok (mount resolve data_root host_root storage "/home/pi" false b) _ h in
      let (d, m₄, h) =
        and_then-ok (mount resolve data_root host_root pkgs "/pi-packages" true c) _ h in
      mount_secrets-Safe task_dir secrets secrets d (λ n q. q) h
        (own-Safe task_dir secrets _ pkgs "/pi-packages" true c
          (Memᴰ.tail (Memᴰ.tail (Memᴰ.tail (Memᴰ.head refl)))) v₄ m₄
          (own-Safe task_dir secrets _ storage "/home/pi" false b
            (Memᴰ.tail (Memᴰ.tail (Memᴰ.head refl))) v₃ m₃
            (own-Safe task_dir secrets _ io "/io" false a (Memᴰ.tail (Memᴰ.head refl)) v₂ m₂
              (own-Safe task_dir secrets _ work "/work" false [] (Memᴰ.head refl) v₁ m₁ tt))))
