-- ===== src/Tail/Resume.antt =====
-- Reading the journal in two calls, while it grows, gives what one call gives.
use neotolis_ai_workbench.Base.{
  ℕ, ◌+◌, ◌-◌, ◌≤◌, ◌≡◌, refl, sym, ap, ◌∙◌, Option, none, some, List, [], ◌∷◌, ◌++◌, arith, length,
  length-append, take_all, drop, drop_all, drop-append, drop-drop, length-drop,
}
use neotolis_ai_workbench.Tail.{
  Formats, Line, event, bad, raises, regular, bytes, Tailed, read_line, put, read_lines, read_chunk,
  tail_events, nothing,
}
use neotolis_ai_workbench.Tail.Lines.{Bytes, split, init, last}
use neotolis_ai_workbench.Tail.Split.{
  init-split-append, last-split-append, length-last-split, drop-split,
}

-- Two results in the order of the file.
abbrev pub followed_by : Tailed → Tailed → Tailed
followed_by t u = record {
  offset = u.offset;
  valid = t.valid ++ u.valid;
  malformed = t.malformed ++ u.malformed;
}

abbrev pub both : Option Tailed → Option Tailed → Option Tailed
both (some t) (some u) = some (followed_by t u)
both (some t) none = none
both none r = none

both-nothing : (o : ℕ) (r : Option Tailed) → both (some (nothing o)) r ≡ r
both-nothing o none = refl
both-nothing o (some u) = refl

module _ (F : Formats) where
  -- A call on a regular file with these bytes.
  abbrev pub tail_file : Bytes → ℕ → Option Tailed
  tail_file contents offset = tail_events F (regular (length contents)) (bytes contents) offset

  put-both : (l : Line) (r s : Option Tailed) → put F l (both r s) ≡ both (put F l r) s
  unfolding put
  put-both raises r s = refl
  put-both (event e) none s = refl
  put-both (bad m) none s = refl
  put-both (event e) (some w) none = refl
  put-both (bad m) (some w) none = refl
  put-both (event e) (some w) (some u) = refl
  put-both (bad m) (some w) (some u) = refl

  read_lines-append :
      (o o' : ℕ) (xs ys : List Bytes)
      → read_lines F o' (xs ++ ys) ≡ both (read_lines F o xs) (read_lines F o' ys)
  unfolding read_lines
  read_lines-append o o' [] ys = sym (both-nothing o _)
  read_lines-append o o' (x ∷ xs) ys =
      rw (read_lines-append o o' xs ys) (put-both (read_line F x) (read_lines F o xs) _)

  offset-put :
      (l : Line) (r : Option Tailed) {o : ℕ} {t : Tailed}
      → ((w : Tailed) → r ≡ some w → w.offset ≡ o)
      → put F l r ≡ some t
      → t.offset ≡ o
  unfolding put
  offset-put raises r h p = cc
  offset-put (event e) none h p = cc
  offset-put (bad m) none h p = cc
  offset-put (event e) (some w) h p = ground (arith, h w)
  offset-put (bad m) (some w) h p = ground (arith, h w)

  -- The offset of a result is the one that the loop was given.
  offset-read_lines :
      (o : ℕ) (xs : List Bytes) {t : Tailed} → read_lines F o xs ≡ some t → t.offset ≡ o
  unfolding read_lines
  offset-read_lines o [] p = ground arith
  offset-read_lines o (x ∷ xs) p =
      offset-put (read_line F x) (read_lines F o xs) (λ w. offset-read_lines o xs {t = w}) p

  -- From an offset inside the file, the tail reads all that follows.
  pub tail_file-read_chunk :
      (c : Bytes) (o : ℕ) → o ≤ length c → tail_file c o ≡ read_chunk F o (drop o c)
  unfolding tail_events split init last
  tail_file-read_chunk c o h = ground (
    arith,
    drop_all c o,
    take_all (drop o c) (length c - o) (sym (length-drop o c)),
    length-drop o c,
  )

  read_chunk-append :
      (o : ℕ) (s b : Bytes) {t : Tailed}
      → read_chunk F o s ≡ some t
      → (t.offset ≡ o + (length s - length (last (split s))))
        × (read_chunk F o (s ++ b) ≡ both (some t) (read_chunk F t.offset (last (split s) ++ b)))
  unfolding read_chunk
  read_chunk-append o s b {t} p =
      let rest = last (split s) in
      let at : t.offset ≡ o + (length s - length rest) = offset-read_lines _ (init (split s)) p in
      (
        at,
        rw
            (
              init-split-append s b,
              read_lines-append (o + (length s - length rest)) _ (init (split s)) _,
              p,
            )
            (ap (λ (n : ℕ). both (some t) (read_lines F n (init (split (rest ++ b)))))
              (rw last-split-append (
                omega (
                  arith,
                  at,
                  length-append s b,
                  length-append rest b,
                  length-last-split s,
                  length-last-split (rest ++ b),
                )))),
      )

  drop-resume :
      (a b : Bytes) (o : ℕ)
      → o ≤ length a
      → let s = drop o a in
        let k = length s - length (last (split s)) in drop (o + k) (a ++ b) ≡ last (split s) ++ b
  drop-resume a b o h =
      let s = drop o a in
      let k = length s - length (last (split s)) in
      rw (← drop-drop o k (a ++ b), drop-append o a b h, drop-append k s b (omega arith))
        (ap (λ (r : Bytes). r ++ b) (drop-split s))

  -- Let the journal hold the bytes `a`, and let a call from an offset within them return `t`. When
  -- the bytes `b` have been appended, one call from the old offset gives the results of `t` and then
  -- those of a call from the offset of `t`; it raises exactly if that call raises.
  pub tail_events-resume :
      (a b : Bytes) (o : ℕ) {t : Tailed}
      → o ≤ length a
      → tail_file a o ≡ some t
      → tail_file (a ++ b) o ≡ both (some t) (tail_file (a ++ b) t.offset)
  tail_events-resume a b o {t} h p =
      let s = drop o a in
      let (at, e) = read_chunk-append o s b (sym (tail_file-read_chunk a o h) ∙ p) in
      let inside : t.offset ≤ length (a ++ b) =
        omega (arith, at, length-drop o a, length-append a b) in
      rw
        (
          tail_file-read_chunk (a ++ b) o (omega (arith, length-append a b)),
          tail_file-read_chunk (a ++ b) t.offset inside,
          drop-append o a b h,
        )
        (e
          ∙ ap (λ (r : Bytes). both (some t) (read_chunk F t.offset r))
              (sym (rw at (drop-resume a b o h))))
