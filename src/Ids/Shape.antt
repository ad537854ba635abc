-- ===== src/Ids/Shape.antt =====
-- What the texts look like that pass validation.
use Prim.Native.Char.{Char, code}
use Prim.Native.String
use Prim.Native.String.count
use neotolis_ai_workbench.Base.{
  ℕ, zero, suc, ◌≤◌, ◌≡◌, inl, inr, refl, String, Bool, true, false, arith, str_eq, Bool-cases,
}
use neotolis_ai_workbench.Ids.{
  id_char, first_char, secret_char, at_end, id_rest, matches_label, secret_rest, matches_secret,
  has_dots, validate_task_id, validate_secret_name,
}

-- A character that ends the text, if it is a newline.
abbrev pub EndsLine : Char → String → Type 0
EndsLine c s = (code c ≡ 10) × (s ≡ "")

-- Every character satisfies `p`, but for one newline that may end the text.
pub data AllBut (p : ℕ → Bool) : String → Type 0 where
  nothing : AllBut p ""
  newline : (c : Char) → code c ≡ 10 → AllBut p (String.◌∷◌ c "")
  char : (c : Char) (s : String) → p (code c) ≡ true → AllBut p s → AllBut p (String.◌∷◌ c s)

at_end-AllBut : (p : ℕ → Bool) (s : String) → at_end s ≡ true → AllBut p s
unfolding at_end
at_end-AllBut p String.[] h = nothing
at_end-AllBut p (String.◌∷◌ c String.[]) h = newline c (ground arith)
at_end-AllBut p (String.◌∷◌ c (String.◌∷◌ d s)) h = cc h

at_end-count : (s : String) → at_end s ≡ true → String.count s ≤ 1
unfolding at_end
at_end-count String.[] h = omega arith
at_end-count (String.◌∷◌ c String.[]) h = omega (arith, count.cons c "")
at_end-count (String.◌∷◌ c (String.◌∷◌ d s)) h = cc h

id_rest-AllBut : (n : ℕ) (s : String) → id_rest n s ≡ true → AllBut id_char s
unfolding id_rest
id_rest-AllBut n String.[] h = nothing
id_rest-AllBut zero (String.◌∷◌ c s) h = at_end-AllBut id_char (String.◌∷◌ c s) h
id_rest-AllBut (suc n) (String.◌∷◌ c s) h = elim (Bool-cases (id_char (code c))) [
  | inl e ↦ char c s e (id_rest-AllBut n s (rw e at h))
  | inr e ↦ at_end-AllBut id_char (String.◌∷◌ c s) (rw e at h)
]

id_rest-count : (n : ℕ) (s : String) → id_rest n s ≡ true → String.count s ≤ suc n
unfolding id_rest
id_rest-count n String.[] h = omega arith
id_rest-count zero (String.◌∷◌ c s) h = at_end-count (String.◌∷◌ c s) h
id_rest-count (suc n) (String.◌∷◌ c s) h = elim (Bool-cases (id_char (code c))) [
  | inl e ↦ omega (arith, count.cons c s, id_rest-count n s (rw e at h))
  | inr e ↦ omega (arith, at_end-count (String.◌∷◌ c s) (rw e at h))
]

first_char-id_char : (c : ℕ) → first_char c ≡ true → id_char c ≡ true
first_char-id_char c h = rw h refl

-- A task id that passes is not empty, has only `a-z`, `0-9` and `-`, but for a newline that may end
-- it, and has at most 65 characters.
pub validate_task_id_sound :
    (task_id : String)
    → validate_task_id task_id ≡ true
    → AllBut id_char task_id × (1 ≤ String.count task_id) × (String.count task_id ≤ 65)
unfolding validate_task_id matches_label
validate_task_id_sound String.[] h = cc h
validate_task_id_sound (String.◌∷◌ c s) h = elim (Bool-cases (first_char (code c))) [
  | inl e ↦
      let r : id_rest 63 s ≡ true = rw e at h in
      (
        char c s (first_char-id_char (code c) e) (id_rest-AllBut 63 s r),
        omega (arith, count.cons c s),
        omega (arith, count.cons c s, id_rest-count 63 s r),
      )
  | inr e ↦ cc (rw e at h)
]

secret_rest-AllBut : (s : String) → secret_rest s ≡ true → AllBut secret_char s
unfolding secret_rest
secret_rest-AllBut String.[] h = nothing
secret_rest-AllBut (String.◌∷◌ c s) h = elim (Bool-cases (secret_char (code c))) [
  | inl e ↦ char c s e (secret_rest-AllBut s (rw e at h))
  | inr e ↦ at_end-AllBut secret_char (String.◌∷◌ c s) (rw e at h)
]

matches_secret-AllBut : (s : String) → matches_secret s ≡ true → AllBut secret_char s
unfolding matches_secret
matches_secret-AllBut String.[] h = cc h
matches_secret-AllBut (String.◌∷◌ c s) h = elim (Bool-cases (secret_char (code c))) [
  | inl e ↦ char c s e (secret_rest-AllBut s (rw e at h))
  | inr e ↦ cc (rw e at h)
]

-- A secret name that passes is not empty, is not ".", contains no "..", and has only letters,
-- digits, `_`, `.` and `-`, so no path separator, but for a newline that may end it.
pub validate_secret_name_sound :
    (name : String)
    → validate_secret_name name ≡ true
    → AllBut secret_char name
      × (str_eq name "" ≡ false)
      × (str_eq name "." ≡ false)
      × (has_dots name ≡ false)
unfolding validate_secret_name
validate_secret_name_sound name h = elim (Bool-cases (matches_secret name)) [
  | inl e ↦ (matches_secret-AllBut name e, ground arith, ground arith, ground arith)
  | inr e ↦ absurd (ground arith)
]
