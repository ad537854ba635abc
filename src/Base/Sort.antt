-- ===== src/Base/Sort.antt =====
-- Python's `sorted`: a stable sort by a test, and what two passes of it give.
use Prim.Native.Char.{code}
use Prim.Native.String.{String}
use mathlib.Core.Path.{◌≡◌, refl}
use mathlib.Core.Logic.{inl, inr}
use mathlib.Core.Bool.{Bool, true, false}
use mathlib.Core.List.{List, [], ◌∷◌, Perm}
use mathlib.Core.List.Perm
use native.Mathlib.Omega.{arith}
use neotolis_ai_workbench.Base.Tests.{ltb, ◌==◌, if◌then◌else◌, Bool-cases}
use neotolis_ai_workbench.Base.Lists.{All}

-- `s <= t` on texts: by their code points.
unfoldable pub text_le : String → String → Bool
text_le String.[] t = true
text_le (String.◌∷◌ c s) String.[] = false
text_le (String.◌∷◌ c s) (String.◌∷◌ d t) =
    let rest = text_le s t in
    if ltb (code c) (code d) then true else if code c == code d then rest else false

pub text_le_total : (s t : String) → text_le s t ≡ false → text_le t s ≡ true
unfolding text_le
text_le_total String.[] t h = cc h
text_le_total (String.◌∷◌ c s) String.[] h = refl
text_le_total (String.◌∷◌ c s) (String.◌∷◌ d t) h = ground (arith, text_le_total s t)

pub text_le_trans : (s t u : String) → text_le s t ≡ true → text_le t u ≡ true → text_le s u ≡ true
unfolding text_le
text_le_trans String.[] t u h k = refl
text_le_trans (String.◌∷◌ c s) String.[] u h k = cc h
text_le_trans (String.◌∷◌ c s) (String.◌∷◌ d t) String.[] h k = cc k
text_le_trans (String.◌∷◌ c s) (String.◌∷◌ d t) (String.◌∷◌ e u) h k =
    ground (arith, text_le_trans s t u)

module _ {A : Type 0} where
  -- Every element stands in the relation to each one after it.
  abbrev pub Ordered : (A → A → Type 0) → List A → Type 0
  Ordered R [] = Unit
  Ordered R (x ∷ xs) = All (R x) xs × Ordered R xs

  pub All-weaken : (P Q : A → Type 0) (xs : List A) → ((x : A) → P x → Q x) → All P xs → All Q xs
  All-weaken P Q [] f h = tt
  All-weaken P Q (x ∷ xs) f (h, hs) = (f x h, All-weaken P Q xs f hs)

  All-trivial : (xs : List A) → All (λ _. Unit {0}) xs
  All-trivial [] = tt
  All-trivial (x ∷ xs) = (tt, All-trivial xs)

  pub Ordered-trivial : (xs : List A) → Ordered (λ _ _. Unit {0}) xs
  Ordered-trivial [] = tt
  Ordered-trivial (x ∷ xs) = (All-trivial xs, Ordered-trivial xs)

module _ {A : Type 0} (le : A → A → Bool) where
  -- In front of the first element that does not have to stand before it.
  unfoldable pub insert : A → List A → List A
  insert x [] = x ∷ []
  insert x (y ∷ ys) = let rest = insert x ys in if le x y then x ∷ y ∷ ys else y ∷ rest

  unfoldable pub sorted : List A → List A
  unfolding insert
  sorted [] = []
  sorted (x ∷ xs) = insert x (sorted xs)

  pub insert-perm : (x : A) (ys : List A) → Perm (insert x ys) (x ∷ ys)
  unfolding insert
  insert-perm x [] = Perm.refl (x ∷ [])
  insert-perm x (y ∷ ys) = elim (Bool-cases (le x y)) [
    | inl e ↦ rw e (Perm.refl (x ∷ y ∷ ys))
    | inr n ↦ rw n (Perm.trans (Perm.cons y (insert-perm x ys)) (Perm.swap x y ys))
  ]

  pub sorted-perm : (xs : List A) → Perm (sorted xs) xs
  unfolding sorted
  sorted-perm [] = Perm.refl []
  sorted-perm (x ∷ xs) = Perm.trans (insert-perm x (sorted xs)) (Perm.cons x (sorted-perm xs))

  All-insert : (P : A → Type 0) (x : A) (ys : List A) → P x → All P ys → All P (insert x ys)
  unfolding insert
  All-insert P x [] h hs = (h, tt)
  All-insert P x (y ∷ ys) h (k, hs) = elim (Bool-cases (le x y)) [
    | inl e ↦ rw e (h, (k, hs))
    | inr n ↦ rw n (k, All-insert P x ys h hs)
  ]

  pub All-sorted : (P : A → Type 0) (xs : List A) → All P xs → All P (sorted xs)
  unfolding sorted
  All-sorted P [] h = tt
  All-sorted P (x ∷ xs) (h, hs) = All-insert P x (sorted xs) h (All-sorted P xs hs)

  -- By the test, and among equals by the order from before.
  abbrev pub Refined : (A → A → Type 0) → A → A → Type 0
  Refined R x y = (le x y ≡ true) × (le y x ≡ true → R x y)

  module _ (total : (x y : A) → le x y ≡ false → le y x ≡ true)
      (trans : (x y z : A) → le x y ≡ true → le y z ≡ true → le x z ≡ true)
      (R : A → A → Type 0) where
    All-Refined :
        (x y : A) (zs : List A)
        → le x y ≡ true
        → All (Refined R y) zs
        → All (R x) zs
        → All (Refined R x) zs
    All-Refined x y [] e a r = tt
    All-Refined x y (z ∷ zs) e ((k, _), a) (r, rs) =
        ((trans x y z e k, λ _. r), All-Refined x y zs e a rs)

    insert-Ordered :
        (x : A) (ys : List A)
        → All (R x) ys
        → Ordered (Refined R) ys
        → Ordered (Refined R) (insert x ys)
    unfolding insert
    insert-Ordered x [] r o = (tt, tt)
    insert-Ordered x (y ∷ ys) (r, rs) (a, o) = elim (Bool-cases (le x y)) [
      | inl e ↦ rw e (((e, λ _. r), All-Refined x y ys e a rs), (a, o))
      | inr n ↦ rw n (
        All-insert (Refined R y) x ys (total x y n, λ h. absurd (cc (h, n))) a,
        insert-Ordered x ys rs o,
      )
    ]

    -- A stable sort keeps the order from before among equals.
    pub sorted-Ordered : (xs : List A) → Ordered R xs → Ordered (Refined R) (sorted xs)
    unfolding sorted
    sorted-Ordered [] h = tt
    sorted-Ordered (x ∷ xs) (h, hs) =
        insert-Ordered x (sorted xs) (All-sorted (R x) xs h) (sorted-Ordered xs hs)
