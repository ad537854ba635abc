-- ===== src/Artifacts/Safe.antt =====
-- The bundle holds no symbolic link, and nothing is written through one.
use neotolis_ai_workbench.Base.{
  ◌≡◌, refl, Bool, true, false, Option, none, some, List, [], ◌∷◌, take, All, Bool-cases, inl, inr,
  eq_iff,
}
use neotolis_ai_workbench.Paths.{FilePath}
use neotolis_ai_workbench.Volumes.{same_path}
use neotolis_ai_workbench.Artifacts.{
  Bytes, Inode, regular, symlink, special, Stat, missing, other_error, not_regular, is_regular,
  Linking, linked, retried, refused, Writing, complete, not_opened, partial, Outside, World, Files,
  find, delete, put, kept, below, store, written, write_to, copied, copy, copy_if, copy_io_file,
  unlinked, recheck, seen, after_link, link_to, replicate_if, replicate_file,
}

abbrev pub is_link : Inode → Bool
is_link (symlink target) = true
is_link _ = false

abbrev pub NoLinks : Files → Type 0
NoLinks files = All (λ f. is_link f.1 ≡ false) files

-- No link in the bundle, and nothing written through one.
pub record Clean {O : Outside} (w : World O) : Type 0 where
  pub files : NoLinks w.files
  pub through : w.through ≡ []

-- In the bundle, which only the controller writes, `lstat` and `unlink` of an entry work.
pub record Works (O : Outside) : Type 0 where
  pub stats : (path : FilePath) (s : O.State) → (O.lstat_dst path s).0 ≡ true
  pub unlinks : (path : FilePath) (s : O.State) → (O.unlink path s).0 ≡ true

same_path_refl : (path : FilePath) → same_path path path ≡ true
unfolding same_path
same_path_refl [] = refl
same_path_refl (p ∷ path) = rw ((eq_iff p p).1 refl) (same_path_refl path)

find-NoLinks :
    (path : FilePath) (files : Files) {inode : Inode}
    → NoLinks files
    → find path files ≡ some inode
    → is_link inode ≡ false
unfolding find
find-NoLinks path [] h e = absurd (cc e)
find-NoLinks path (f ∷ files) (n, h) e = elim (Bool-cases (same_path f.0 path)) [
  | inl s ↦ let same : some f.1 ≡ some _ = rw s at e in cc (n, same)
  | inr s ↦ find-NoLinks path files h (rw s at e)
]

delete-NoLinks : (path : FilePath) (files : Files) → NoLinks files → NoLinks (delete path files)
unfolding delete
delete-NoLinks path [] h = tt
delete-NoLinks path (f ∷ files) (n, h) = elim (Bool-cases (same_path f.0 path)) [
  | inl s ↦ rw s (delete-NoLinks path files h)
  | inr s ↦ rw s (n, delete-NoLinks path files h)
]

pub kept-NoLinks :
    (root : FilePath) (keeps : FilePath → Bool) (files : Files)
    → NoLinks files
    → NoLinks (kept root keeps files)
unfolding kept
kept-NoLinks root keeps [] h = tt
kept-NoLinks root keeps (f ∷ files) (n, h) =
    let rest = kept-NoLinks root keeps files h in
    elim (Bool-cases (below root f.0)) [
      | inr b ↦ rw b (n, rest)
      | inl b ↦ elim (Bool-cases (keeps f.0)) [
        | inl k ↦ rw (b, k) (n, rest)
        | inr k ↦ rw (b, k) rest
      ]
    ]

module _ {O : Outside} where
  store-Clean :
      (dst : FilePath) (content : Bytes) (o : Option Inode) (w : World O)
      → ((inode : Inode) → o ≡ some inode → is_link inode ≡ false)
      → Clean w
      → Clean (store dst content o w)
  unfolding store put
  store-Clean dst content (some (symlink target)) w h c = absurd (cc (h (symlink target) refl))
  store-Clean dst content (some (regular b)) w h c = record {
    files = (refl, delete-NoLinks dst w.files c.files);
    through = c.through;
  }
  store-Clean dst content (some special) w h c = record {
    files = (refl, delete-NoLinks dst w.files c.files);
    through = c.through;
  }
  store-Clean dst content none w h c = record {
    files = (refl, delete-NoLinks dst w.files c.files);
    through = c.through;
  }

  stored :
      (dst : FilePath) (content : Bytes) (w : World O)
      → Clean w
      → Clean (store dst content (find dst w.files) w)
  stored dst content w c =
      store-Clean dst content (find dst w.files) w (λ inode e. find-NoLinks dst w.files c.files e) c

  written-Clean :
      (dst : FilePath) (content : Bytes) (writing : Writing) (w : World O)
      → Clean w
      → Clean (written dst content writing w)
  unfolding written
  written-Clean dst content complete w c = stored dst content w c
  written-Clean dst content (partial n) w c = stored dst (take n content) w c
  written-Clean dst content not_opened w c = c

  -- The state of the outside does not matter.
  pub moved : (w : World O) (s : O.State) → Clean w → Clean (record w { state = s })
  moved w s c = record { files = c.files; through = c.through }

  pub write_to-Clean :
      (dst : FilePath) (content : Bytes) (w : World O) → Clean w → Clean (write_to dst content w)
  unfolding write_to
  write_to-Clean dst content w c =
      let (writing, s) = O.write dst w.state in
      written-Clean dst content writing (record w { state = s }) (moved w s c)

  copied-Clean :
      (dst : FilePath) (b : Option Bytes) (w : World O) → Clean w → Clean (copied dst b w)
  unfolding copied
  copied-Clean dst none w c = c
  copied-Clean dst (some content) w c = write_to-Clean dst content w c

  copy-Clean : (src dst : FilePath) (w : World O) → Clean w → Clean (copy src dst w)
  unfolding copy
  copy-Clean src dst w c =
      let (b, s) = O.open_nofollow src w.state in
      copied-Clean dst b (record w { state = s }) (moved w s c)

  copy_if-Clean :
      (src dst : FilePath) (st : Stat) (w : World O) → Clean w → Clean (copy_if src dst st w).1
  unfolding copy_if
  copy_if-Clean src dst missing w c = c
  copy_if-Clean src dst other_error w c = c
  copy_if-Clean src dst not_regular w c = c
  copy_if-Clean src dst is_regular w c = copy-Clean src dst w c

  pub copy_io_file-Clean :
      (src dst : FilePath) (w : World O) → Clean w → Clean (copy_io_file src dst w).1
  unfolding copy_io_file
  copy_io_file-Clean src dst w c =
      let (st, s) = O.lstat src w.state in
      copy_if-Clean src dst st (record w { state = s }) (moved w s c)

  module _ (works : Works O) where
    -- The new entry is looked at, and removed if it is a link.
    seen-Clean :
        (src dst : FilePath) (inode : Inode) (files : Files) (through : List FilePath) (b : Bool)
        (s : O.State)
        → b ≡ true
        → NoLinks files
        → through ≡ []
        → Clean (
            seen {O = O} src dst b
              (record { files = put dst inode files; through = through; state = s }))
    unfolding seen recheck put find delete unlinked
    seen-Clean src dst inode files through false s e h t = absurd (cc e)
    seen-Clean src dst (regular x) files through true s e h t =
        rw (same_path_refl dst) (record { files = (refl, delete-NoLinks dst files h); through = t })
    seen-Clean src dst special files through true s e h t =
        rw (same_path_refl dst) (record { files = (refl, delete-NoLinks dst files h); through = t })
    seen-Clean src dst (symlink target) files through true s e h t =
        rw (same_path_refl dst, works.unlinks dst s)
          (copy-Clean src dst
            (record {
              files = delete dst ((dst, symlink target) ∷ delete dst files);
              through = through;
              state = (O.unlink dst s).1;
            })
            (record {
              files = rw (same_path_refl dst) (delete-NoLinks dst _ (delete-NoLinks dst files h));
              through = t;
            }))

    after_link-Clean :
        (src dst : FilePath) (l : Linking) (w : World O) → Clean w → Clean (after_link src dst l w)
    unfolding after_link
    after_link-Clean src dst (linked inode) w c =
        let (b, s) = O.lstat_dst dst w.state in
        seen-Clean src dst inode w.files w.through b s (works.stats dst w.state) c.files c.through
    after_link-Clean src dst retried w c = copy-Clean src dst w c
    after_link-Clean src dst refused w c = c

    link_to-Clean :
        (src dst : FilePath) (o : Option Inode) (w : World O)
        → Clean w
        → Clean (link_to src dst o w)
    unfolding link_to
    link_to-Clean src dst (some inode) w c = c
    link_to-Clean src dst none w c =
        let (l, s) = O.link src w.state in
        after_link-Clean src dst l (record w { state = s }) (moved w s c)

    replicate_if-Clean :
        (src dst : FilePath) (st : Stat) (w : World O)
        → Clean w
        → Clean (replicate_if src dst st w).1
    unfolding replicate_if
    replicate_if-Clean src dst missing w c = c
    replicate_if-Clean src dst other_error w c = c
    replicate_if-Clean src dst not_regular w c = c
    replicate_if-Clean src dst is_regular w c = link_to-Clean src dst (find dst w.files) w c

    pub replicate_file-Clean :
        (src dst : FilePath) (w : World O) → Clean w → Clean (replicate_file src dst w).1
    unfolding replicate_file
    replicate_file-Clean src dst w c =
        let (st, s) = O.lstat src w.state in
        replicate_if-Clean src dst st (record w { state = s }) (moved w s c)
