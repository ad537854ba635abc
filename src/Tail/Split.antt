-- ===== src/Tail/Split.antt =====
-- The laws of `split`: nothing is lost, and a file that grows is split the same way.
use mathlib.Core.Path.{subst}
use neotolis_ai_workbench.Base.{
  ℕ, ◌-◌, ◌≤◌, ◌≡◌, refl, sym, ap, ◌∙◌, inl, inr, List, [], ◌∷◌, ◌++◌, arith, ◌==◌, true, false,
  Bool-cases, length, length-append, drop, drop-length-append,
}
use neotolis_ai_workbench.Tail.Lines.{Bytes, newline, prepend, split, init, last}

-- `split` gives at least one line.
split-cons : (s : Bytes) → (l : Bytes) × (ls : List Bytes) × (split s ≡ l ∷ ls)
unfolding split
split-cons [] = ([], [], refl)
split-cons (c ∷ s) = elim (Bool-cases (c == newline)) [
  | inl e ↦ ([], split s, rw e)
  | inr e ↦ let (l, ls, p) = split-cons s in (c ∷ l, ls, rw (e, p))
]

pub split-newline : (c : ℕ) (s : Bytes) → (c == newline) ≡ true → split (c ∷ s) ≡ [] ∷ split s
unfolding split
split-newline c s e = rw e

pub split_other : (c : ℕ) (s : Bytes) → (c == newline) ≡ false → split (c ∷ s) ≡ prepend c (split s)
unfolding split
split_other c s e = rw e

pub init-append-cons :
    (xs : List Bytes) (y : Bytes) (ys : List Bytes) → init (xs ++ y ∷ ys) ≡ xs ++ init (y ∷ ys)
unfolding init
init-append-cons [] y ys = refl
init-append-cons (x ∷ []) y ys = refl
init-append-cons (x ∷ x' ∷ xs) y ys =
    ap (λ (l : List Bytes). x ∷ l) (init-append-cons (x' ∷ xs) y ys)

pub last-append-cons :
    (xs : List Bytes) (y : Bytes) (ys : List Bytes) → last (xs ++ y ∷ ys) ≡ last (y ∷ ys)
unfolding last
last-append-cons [] y ys = refl
last-append-cons (x ∷ []) y ys = refl
last-append-cons (x ∷ x' ∷ xs) y ys = last-append-cons (x' ∷ xs) y ys

prepend_step :
    (c : ℕ) (ls : List Bytes) (t : Bytes) (l : Bytes) (rest : List Bytes)
    → ls ≡ l ∷ rest
    → (c == newline) ≡ false
    → prepend c (init ls ++ split (last ls ++ t))
      ≡ init (prepend c ls) ++ split (last (prepend c ls) ++ t)
unfolding prepend init last
prepend_step c ls t l [] p e = rw p (sym (split_other c (l ++ t) e))
prepend_step c ls t l (m ∷ rest) p e = rw p

-- The last line is incomplete: what follows is appended to it.
pub split-append : (s t : Bytes) → split (s ++ t) ≡ init (split s) ++ split (last (split s) ++ t)
unfolding init last
split-append [] t = unfold split in refl
split-append (c ∷ s) t = elim (Bool-cases (c == newline)) [
  | inl e ↦
      let (l, ls, p) = split-cons s in
      rw (split-newline c s e, split-newline c (s ++ t) e, split-append s t, p)
  | inr e ↦
      let (l, ls, p) = split-cons s in
      rw (split_other c s e, split_other c (s ++ t) e, split-append s t)
        (prepend_step c (split s) t l ls p e)
]

pub init-split-append :
    (s t : Bytes) → init (split (s ++ t)) ≡ init (split s) ++ init (split (last (split s) ++ t))
init-split-append s t =
    let (l, ls, p) = split-cons (last (split s) ++ t) in
    rw (split-append s t, p) (init-append-cons (init (split s)) l ls)

pub last-split-append : (s t : Bytes) → last (split (s ++ t)) ≡ last (split (last (split s) ++ t))
last-split-append s t =
    let (l, ls, p) = split-cons (last (split s) ++ t) in
    rw (split-append s t, p) (last-append-cons (init (split s)) l ls)

-- Every line with its newline.
pub unlines : List Bytes → Bytes
unlines [] = []
unlines (l ∷ ls) = l ++ (newline ∷ unlines ls)

unlines_step :
    (c : ℕ) (ls : List Bytes) (l : Bytes) (rest : List Bytes)
    → ls ≡ l ∷ rest
    → unlines (init (prepend c ls)) ++ last (prepend c ls) ≡ c ∷ (unlines (init ls) ++ last ls)
unfolding prepend init last unlines
unlines_step c ls l [] p = rw p
unlines_step c ls l (m ∷ rest) p = rw p

cons_newline : (c : ℕ) (r s : Bytes) → (c == newline) ≡ true → r ≡ s → newline ∷ r ≡ c ∷ s
cons_newline c r s e h = ground arith

newline_step :
    (c : ℕ) (s : Bytes) (ls : List Bytes) (l : Bytes) (rest : List Bytes)
    → ls ≡ l ∷ rest
    → (c == newline) ≡ true
    → unlines (init ls) ++ last ls ≡ s
    → unlines (init ([] ∷ ls)) ++ last ([] ∷ ls) ≡ c ∷ s
unfolding init last unlines
newline_step c s ls l rest p e h = rw p (cons_newline c _ s e (rw p at h))

-- The complete lines and the rest are the bytes that were split.
pub unlines-split : (s : Bytes) → unlines (init (split s)) ++ last (split s) ≡ s
unfolding unlines
unlines-split [] = unfold split init last in refl
unlines-split (c ∷ s) = elim (Bool-cases (c == newline)) [
  | inl e ↦
      let (l, ls, p) = split-cons s in
      rw (split-newline c s e) (newline_step c s (split s) l ls p e (unlines-split s))
  | inr e ↦
      let (l, ls, p) = split-cons s in
      rw (split_other c s e)
        (unlines_step c (split s) l ls p ∙ ap (λ (r : Bytes). c ∷ r) (unlines-split s))
]

pub length-last-split : (s : Bytes) → length (last (split s)) ≤ length s
length-last-split s =
    omega (
      arith,
      ap length (unlines-split s),
      length-append (unlines (init (split s))) (last (split s)),
    )

-- What is left unread after the complete lines is the incomplete one.
pub drop-split : (s : Bytes) → drop (length s - length (last (split s))) s ≡ last (split s)
drop-split s =
    let complete = unlines (init (split s)) in
    let rest = last (split s) in
    let whole : complete ++ rest ≡ s = unlines-split s in
    let n : ℕ = length s - length rest in
    subst (λ (b : Bytes). drop n b ≡ rest) whole
      (drop-length-append complete rest n
        (omega (arith, ap length whole, length-append complete rest)))
