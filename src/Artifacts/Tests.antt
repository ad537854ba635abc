-- ===== src/Artifacts/Tests.antt =====
-- Captures of a task whose files turn into links.
use neotolis_ai_workbench.Base.{◌≡◌, refl, ℕ, zero, suc, true, false, none, some, [], ◌∷◌}
use neotolis_ai_workbench.Volumes.{same_path}
use neotolis_ai_workbench.Artifacts.{
  regular, symlink, is_regular, Linking, linked, complete, Outside, World, find, delete, put,
  copied, copy, unlinked, recheck, seen, after_link, link_to, replicate_if, replicate_file,
}
use neotolis_ai_workbench.Artifacts.Safe.{Clean, Works}
use neotolis_ai_workbench.Artifacts.Bundle.{capture_bundle}
use neotolis_ai_workbench.Artifacts.Capture.{capture_bundle-Clean}

-- The state counts the links that are made: the first is of a file that has become a link.
abbrev swapped : ℕ → Linking × ℕ
swapped zero = (linked (symlink ("etc" ∷ "shadow" ∷ [])), 1)
swapped (suc n) = (linked (regular (7 ∷ [])), suc (suc n))

abbrev outside : Outside
outside = record {
  State = ℕ;
  exists = λ path s. (true, s);
  lstat = λ path s. (is_regular, s);
  link = λ path s. swapped s;
  open_nofollow = λ path s. (none, s);
  write = λ path s. (complete, s);
  lstat_dst = λ path s. (true, s);
  unlink = λ path s. (true, s);
  mkdir = λ path s. (true, s);
  mkdir_parent = λ path s. (true, s);
  rmtree = λ path s. ((λ p. false), s);
  walk = λ path s. (([], "a" ∷ "b" ∷ []) ∷ [], s);
  git = λ path args s. (some (record { returncode = 0; stdout = 65 ∷ [] }), s);
  decode = λ b. some ("new.txt" ∷ []);
  text = λ b. b;
  splitlines = λ b. b ∷ [];
}

abbrev world : World outside
world = record { files = []; through = []; state = 0 }

works : Works outside
works = record { stats = λ path s. refl; unlinks = λ path s. refl }

capture_bundle-Clean_example :
    Clean
      (capture_bundle {O = outside}
        ("t" ∷ [])
        (some "project")
        (some "abc")
        (some ("w" ∷ []))
        world).1
capture_bundle-Clean_example =
    capture_bundle-Clean works ("t" ∷ []) (some "project") (some "abc") (some ("w" ∷ [])) world
      (record { files = tt; through = refl })

-- The link is taken out again, and the second file is linked.
replaced : (replicate_file {O = outside} ("s" ∷ []) ("d" ∷ []) world).1.files ≡ []
unfolding replicate_file replicate_if link_to find put after_link seen recheck unlinked delete copy
    copied same_path
replaced = refl

kept_file :
    (replicate_file {O = outside} ("s" ∷ []) ("d" ∷ []) (record world { state = 1 })).1.files
    ≡ ("d" ∷ [], regular (7 ∷ [])) ∷ []
unfolding replicate_file replicate_if link_to find put after_link seen recheck unlinked delete copy
    copied same_path
kept_file = refl
