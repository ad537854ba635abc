-- ===== src/Clean/Rounds.antt =====
-- What a loop over a list does to a state, by what one round does.
use mathlib.Core.List.{Memᴰ}
use mathlib.Core.List.Memᴰ
use neotolis_ai_workbench.Base.{refl, List, [], ◌∷◌, ◌⊎◌, inl, inr, sym}
use neotolis_ai_workbench.Clean.{each}
use mathlib.Core.Path.{subst}

module _ {A S : Type 0} (f : A → S → S) where
  -- What each round keeps.
  pub each-kept :
      (I : S → Type 0)
      → ((x : A) (s : S) → I s → I (f x s))
      → (xs : List A) (s : S) → I s
      → I (each f xs s)
  unfolding each
  each-kept I step [] s h = h
  each-kept I step (x ∷ xs) s h = each-kept I step xs (f x s) (step x s h)

  -- What each round keeps, unless its element is to blame.
  pub each-blamed :
      (I : S → Type 0) (B : A → Type 0)
      → ((x : A) (s : S) → I s → I (f x s) ⊎ B x)
      → (xs : List A) (s : S) → I s
      → I (each f xs s) ⊎ ((x : A) × Memᴰ x xs × B x)
  unfolding each
  each-blamed I B step [] s h = inl h
  each-blamed I B step (x ∷ xs) s h = elim (step x s h) [
    | inr b ↦ inr (x, Memᴰ.head refl, b)
    | inl k ↦ elim (each-blamed I B step xs (f x s) k) [
      | inl u ↦ inl u
      | inr (y, m, b) ↦ inr (y, Memᴰ.tail m, b)
    ]
  ]

  -- What holds after a round only if it held before: after the loop, each round has left its mark.
  module _ (P : S → Type 0) (Q : A → Type 0) (back : (x : A) (s : S) → P (f x s) → P s × Q x) where
    pub each-back : (xs : List A) (s : S) → P (each f xs s) → P s
    unfolding each
    each-back [] s h = h
    each-back (x ∷ xs) s h = (back x s (each-back xs (f x s) h)).0

    pub each-marked : (xs : List A) (s : S) → P (each f xs s) → (x : A) → Memᴰ x xs → Q x
    unfolding each
    each-marked [] s h x m = absurd (Memᴰ.not-nil m)
    each-marked (y ∷ ys) s h x m = elim (Memᴰ.cases_cons m) [
      | inl q ↦ subst Q (sym q) (back y s (each-back ys (f y s) h)).1
      | inr r ↦ each-marked ys (f y s) h x r
    ]
