-- ===== src/Output/Last.antt =====
-- What `output` prints is the end of the log.
use Prim.Native.Char.{Char, code}
use Prim.Native.String.{String}
use text.Mathlib.TextLemmas
use mathlib.Core.List.{append-nil, append_assoc}
use neotolis_ai_workbench.Base.{
  ◌≡◌, refl, sym, ap, ◌∙◌, ℕ, zero, suc, ◌-◌, ◌≤◌, ◌<◌, ◌<>◌, List, [], ◌∷◌, ◌++◌, length, drop,
  length-append, ◌==◌, arith, Bool-cases, ◌⊎◌, inl, inr,
}
use neotolis_ai_workbench.Output.LineEnds.{LineEnds, as_text-LineEnds}
use neotolis_ai_workbench.Output.{add_char, lines_of, append, deque, join, as_text, last_lines}

join-lines_of : (s : String) → join (lines_of s) ≡ s
unfolding join lines_of
join-lines_of String.[] = refl
join-lines_of (String.◌∷◌ c s) = elim (Bool-cases (code c == 10)) [
  | inl e ↦
      rw
        (e, TextLemmas.cons-append c "" (join (lines_of s)), TextLemmas.nil-append, join-lines_of s)
        refl
  | inr e ↦ rw e (join-add_char c (lines_of s) ∙ ap (String.◌∷◌ c) (join-lines_of s))
]
  where
    join-add_char :
        (c : Char) (lines : List String) → join (add_char c lines) ≡ String.◌∷◌ c (join lines)
    join-add_char c [] = TextLemmas.append-nil (String.◌∷◌ c "")
    join-add_char c (line ∷ lines) = TextLemmas.cons-append c line (join lines)

-- The deque is not full, or loses its first item.
append-cases :
    (n : ℕ) (tail : List String) (line : String)
    → 0 < n
    → length tail ≤ n
    → ((length tail < n) × (append n tail line ≡ tail ++ line ∷ []))
      ⊎ ((y : String) × (t : List String) × (tail ≡ y ∷ t)
          × (suc (length t) ≡ n)
          × (append n tail line ≡ t ++ line ∷ []))
unfolding append
append-cases n [] line p h = inl (p, ground arith)
append-cases n (y ∷ t) line p h = elim (Bool-cases (suc (length t) == n)) [
  | inl e ↦ inr (y, t, refl, ground arith, rw e refl)
  | inr e ↦ inl (ground arith, rw e refl)
]

-- One item more to drop.
drop-more :
    (n : ℕ) (y line : String) (t lines : List String)
    → suc (length t) ≡ n
    → drop (length (t ++ line ∷ lines) - n) (t ++ line ∷ lines)
      ≡ drop (suc (length (t ++ line ∷ lines)) - n) (y ∷ (t ++ line ∷ lines))
drop-more n y line t lines e =
    let k : suc (length (t ++ line ∷ lines)) - n ≡ suc (length (t ++ line ∷ lines) - n) =
      omega (arith, length-append t (line ∷ lines)) in
    rw k refl

-- The deque holds the last items of what it has been given.
deque-drop :
    (n : ℕ) (tail lines : List String)
    → 0 < n
    → length tail ≤ n
    → deque n tail lines ≡ drop (length (tail ++ lines) - n) (tail ++ lines)
unfolding deque
deque-drop n tail [] p h =
    let none_left : length tail - n ≡ 0 = omega arith in rw (append-nil tail, none_left) refl
deque-drop n tail (line ∷ lines) p h = elim (append-cases n tail line p h) [
  | inl (l, e) ↦
      rw (e, ← append_assoc tail (line ∷ []) lines)
        (deque-drop n (tail ++ line ∷ []) lines p (omega (arith, length-append tail (line ∷ []))))
  | inr (y, t, same, l, e) ↦
      rw (e, same)
        (deque-drop n (t ++ line ∷ []) lines p (omega (arith, length-append t (line ∷ [])))
          ∙ rw (append_assoc t (line ∷ []) lines) (drop-more n y line t lines l))
]

-- A text is its first line, and a text that has the other lines.
abbrev FirstLine : String → String → List String → Type 0
FirstLine s line lines = (rest : String) × (s ≡ line <> rest) × (lines_of rest ≡ lines)

cons-split : (c : Char) (s : String) → String.◌∷◌ c s ≡ String.◌∷◌ c "" <> s
cons-split c s = cc (TextLemmas.cons-append c "" s, TextLemmas.nil-append s)

add_char-FirstLine :
    (c : Char) (s line : String) (lines ls : List String)
    → lines_of s ≡ ls
    → ((l : String) (rest : List String) → lines_of s ≡ l ∷ rest → FirstLine s l rest)
    → add_char c ls ≡ line ∷ lines
    → FirstLine (String.◌∷◌ c s) line lines
unfolding add_char
add_char-FirstLine c s line lines [] e ih h = (s, cc (h, cons-split c s), cc (h, e))
add_char-FirstLine c s line lines (l ∷ ls) e ih h =
    let (rest, p, q) = ih l ls e in
    (rest, cc (h, ap (String.◌∷◌ c) p, TextLemmas.cons-append c l rest), cc (h, q))

lines_of-FirstLine :
    (s line : String) (lines : List String) → lines_of s ≡ line ∷ lines → FirstLine s line lines
unfolding lines_of
lines_of-FirstLine String.[] line lines h = absurd (cc h)
lines_of-FirstLine (String.◌∷◌ c s) line lines h =
    let ih : (l : String) (rest : List String) → lines_of s ≡ l ∷ rest → FirstLine s l rest =
      lines_of-FirstLine s in
    elim (Bool-cases (code c == 10)) [
      | inl e ↦
          let h' : String.◌∷◌ c "" ∷ lines_of s ≡ line ∷ lines = rw e at h in
          (s, cc (h', cons-split c s), cc h')
      | inr e ↦ add_char-FirstLine c s line lines (lines_of s) refl ih (rw e at h)
    ]

-- An end of the text, with what comes before.
abbrev End : String → List String → Type 0
End s lines = (rest : String) × (front : String) × (s ≡ front <> rest) × (lines_of rest ≡ lines)

drop-End : (k : ℕ) (s : String) → End s (drop k (lines_of s))
drop-End zero s = (s, "", sym (TextLemmas.nil-append s), refl)
drop-End (suc k) s =
    let ih : (r : String) → End r (drop k (lines_of r)) = drop-End k in
    elim (lines_of s) as (λ ls. lines_of s ≡ ls → End s (drop (suc k) ls)) [
      | [] ↦ λ e. (s, "", sym (TextLemmas.nil-append s), e)
      | line ∷ lines ↦ λ e.
          let (r, p, q) = lines_of-FirstLine s line lines e in
          let (rest, front, p', q') = ih r in
          (
            rest,
            line <> front,
            p ∙ rw (TextLemmas.append_assoc line front rest) (ap (λ (t : String). line <> t) p'),
            rw q at q',
          )
    ]
      refl

-- A number of lines that is not zero: what `output` prints is an end of the text of the log, where each
-- `\r\n`, and each `\r` with no `\n` after it, is a `\n`; its lines are the last ones of that text, as
-- many as asked for, or all where it has no more.
pub last_lines-End :
    (n : ℕ) (log : String)
    → 0 < n
    → (text : String) × (front : String) × LineEnds log text
      × (text ≡ front <> last_lines n log)
      × (lines_of (last_lines n log) ≡ drop (length (lines_of text) - n) (lines_of text))
unfolding last_lines
last_lines-End n log p =
    let text = as_text log in
    let (rest, front, e, q) = drop-End (length (lines_of text) - n) text in
    let held : deque n [] (lines_of text) ≡ lines_of rest =
      deque-drop n [] (lines_of text) p (omega arith) ∙ sym q in
    rw (held, join-lines_of rest) (text, front, as_text-LineEnds log, e, q)
