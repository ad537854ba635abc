-- ===== src/List/Rows/Newest.antt =====
-- The rows that `list` shows are the newest ones that pass the filters.
use mathlib.Core.List.{Perm, append-nil}
use mathlib.Core.List.Perm
use neotolis_ai_workbench.Base.{
  ℕ, zero, suc, ◌≡◌, refl, sym, ap, ◌∙◌, String, Bool, true, false, not, ◌&&◌, Option, none, some,
  List, [], ◌∷◌, ◌++◌, ◌⊎◌, inl, inr, get_or, take, drop, length, one_of, Bool-cases,
}
use neotolis_ai_workbench.Base.Sort.{
  Ordered, Refined, sorted, sorted-perm, sorted-Ordered, Ordered-trivial, text_le_total,
  text_le_trans,
}
use neotolis_ai_workbench.List.Rows.{
  TableRow, ListRequest, select, by_status, by_project, has_alias, apply_filters, sort_key, id_le,
  newer, sort_rows, limited, select_rows,
}

-- `r` may stand before `s`: its key is not older, and at equal keys its id is not greater.
abbrev pub Before : TableRow → TableRow → Type 0
Before r s =
    (newer r s ≡ true) × (newer s r ≡ true → (id_le r s ≡ true) × (id_le s r ≡ true → Unit {0}))

sort_rows-Ordered : (rows : List TableRow) → Ordered Before (sort_rows rows)
unfolding sort_rows
sort_rows-Ordered rows =
    sorted-Ordered newer (λ r s. text_le_total (sort_key s.dict) (sort_key r.dict))
      (λ r s t h k. text_le_trans (sort_key t.dict) (sort_key s.dict) (sort_key r.dict) k h)
      (Refined id_le (λ _ _. Unit {0})) (sorted id_le rows)
      (sorted-Ordered id_le (λ r s. text_le_total (get_or r.dict.id "") (get_or s.dict.id ""))
        (λ r s t. text_le_trans (get_or r.dict.id "") (get_or s.dict.id "") (get_or t.dict.id ""))
        (λ _ _. Unit {0}) rows (Ordered-trivial rows))

sort_rows-perm : (rows : List TableRow) → Perm (sort_rows rows) rows
unfolding sort_rows
sort_rows-perm rows = Perm.trans (sorted-perm newer (sorted id_le rows)) (sorted-perm id_le rows)

-- What the request asks of a row.
abbrev pub allowed : List String → TableRow → Bool
allowed [] r = true
allowed (s ∷ statuses) r = one_of r.computed.status (s ∷ statuses)

abbrev pub of_project : Option String → TableRow → Bool
of_project none r = true
of_project (some alias) r = has_alias alias r.dict.project_alias

-- The rows that pass both filters, in the order from before.
abbrev pub passing : ListRequest → List TableRow → List TableRow
passing q rows = select (λ r. allowed q.statuses r && of_project q.project_filter r) rows

select_all : (rows : List TableRow) → select (λ r. true) rows ≡ rows
unfolding select
select_all [] = refl
select_all (r ∷ rows) = ap (◌∷◌ r) (select_all rows)

select-select :
    (p q : TableRow → Bool) (rows : List TableRow)
    → select q (select p rows) ≡ select (λ r. p r && q r) rows
unfolding select
select-select p q [] = refl
select-select p q (r ∷ rows) = elim (Bool-cases (p r)) [
  | inl e ↦ rw (e, select-select p q rows)
  | inr n ↦ rw n (select-select p q rows)
]

by_status-allowed :
    (statuses : List String) (rows : List TableRow)
    → by_status statuses rows ≡ select (allowed statuses) rows
unfolding by_status
by_status-allowed [] rows = sym (select_all rows)
by_status-allowed (s ∷ statuses) rows = refl

by_project-of_project :
    (project : Option String) (rows : List TableRow)
    → by_project project rows ≡ select (of_project project) rows
unfolding by_project
by_project-of_project none rows = sym (select_all rows)
by_project-of_project (some alias) rows = refl

apply_filters-passing :
    (q : ListRequest) (rows : List TableRow)
    → apply_filters rows q.statuses q.project_filter ≡ passing q rows
unfolding apply_filters
apply_filters-passing q rows =
    ap (by_project q.project_filter) (by_status-allowed q.statuses rows)
    ∙ by_project-of_project q.project_filter (select (allowed q.statuses) rows)
    ∙ select-select (allowed q.statuses) (of_project q.project_filter) rows

take-append-drop : (n : ℕ) (l : List TableRow) → take n l ++ drop n l ≡ l
take-append-drop zero l = refl
take-append-drop (suc n) [] = refl
take-append-drop (suc n) (x ∷ l) = ap (◌∷◌ x) (take-append-drop n l)

short_or_full : (n : ℕ) (l : List TableRow) → (drop n l ≡ []) ⊎ (length (take n l) ≡ n)
short_or_full zero l = inr refl
short_or_full (suc n) [] = inl refl
short_or_full (suc n) (x ∷ l) = elim (short_or_full n l) [ inl e ↦ inl e | inr e ↦ inr (ap suc e) ]

-- What `list` shows, and what it leaves out.
pub record Shown (q : ListRequest) (rows shown rest : List TableRow) : Type 0 where
  pub ordered : Ordered Before (shown ++ rest)
  pub all : Perm (shown ++ rest) (passing q rows)
  pub limit :
      (rest ≡ [])
      ⊎ ((n : ℕ) × (q.limit ≡ some n)
          × (q.show_all && not q.limit_was_explicit ≡ false)
          × (length shown ≡ n))

sort_rows-Shown :
    (q : ListRequest) (rows l rest : List TableRow) {shown : List TableRow}
    → l ≡ sort_rows (passing q rows)
    → shown ++ rest ≡ l
    → (rest ≡ [])
      ⊎ ((n : ℕ) × (q.limit ≡ some n)
          × (q.show_all && not q.limit_was_explicit ≡ false)
          × (length shown ≡ n))
    → Shown q rows shown rest
sort_rows-Shown q rows l rest e s h = record {
  ordered = rw (s, e) (sort_rows-Ordered (passing q rows));
  all = rw (s, e) (sort_rows-perm (passing q rows));
  limit = h;
}

limited-cases :
    (q : ListRequest) (limit : Option ℕ) (rows l : List TableRow)
    → q.limit ≡ limit
    → l ≡ sort_rows (passing q rows)
    → (rest : List TableRow) × Shown q rows
        (limited limit (q.show_all && not q.limit_was_explicit) l)
        rest
unfolding limited
limited-cases q none rows l h e = ([], sort_rows-Shown q rows l [] e (append-nil l) (inl refl))
limited-cases q (some n) rows l h e = elim (Bool-cases (q.show_all && not q.limit_was_explicit)) [
  | inl b ↦ rw b ([], sort_rows-Shown q rows l [] e (append-nil l) (inl refl))
  | inr b ↦ rw b (
    drop n l,
    sort_rows-Shown q rows l (drop n l) e (take-append-drop n l)
        (elim (short_or_full n l) [ inl d ↦ inl d | inr f ↦ inr (n, h, b, f) ]),
  )
]

-- The rows that are shown, with some rest, are a permutation of all rows that pass both filters, in
-- the order newest first and then by id; and the rest is empty, unless the limit counts and the rows
-- that are shown are as many as it says.
pub select_rows-Shown :
    (q : ListRequest) (rows : List TableRow)
    → (rest : List TableRow) × Shown q rows (select_rows q rows) rest
unfolding select_rows
select_rows-Shown q rows =
    limited-cases q q.limit rows (sort_rows (apply_filters rows q.statuses q.project_filter)) refl
      (ap sort_rows (apply_filters-passing q rows))
