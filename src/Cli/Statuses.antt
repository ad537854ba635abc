-- ===== src/Cli/Statuses.antt =====
-- What `list --status` accepts.
use Prim.Native.String.{String}
use neotolis_ai_workbench.Base.{
  ◌≡◌, refl, sym, ap, ◌∙◌, Bool, true, false, not, ◌&&◌, ◌||◌, Option, none, some, List, [], ◌∷◌,
  ◌++◌, map, inl, inr, All, Bool-cases, str-cases, str_eq, eq_iff, one_of, split_text,
}
use neotolis_ai_workbench.Cli.Options.{
  list_statuses, add_status, then_with, add_pieces, add_items, parse_statuses,
}

-- What has been typed: the pieces between commas, stripped.
abbrev pub pieces : (String → String) → List String → List String
pieces strip [] = []
pieces strip (item ∷ value) = map strip (split_text b',' item) ++ pieces strip value

abbrev pub Distinct : List String → Type 0
Distinct [] = Unit
Distinct (s ∷ out) = (one_of s out ≡ false) × Distinct out

-- `refused`: a piece that is not empty is no status. `accepted`: the statuses of the result are all
-- different, and are the pieces that are not empty, in addition to those that were there.
pub data Parsed (before typed : List String) : Option (List String) → Type 0 where
  refused :
      (piece : String)
      → one_of piece typed ≡ true
      → str_eq piece "" ≡ false
      → one_of piece list_statuses ≡ false
      → Parsed before typed none
  accepted :
      (out : List String)
      → Distinct out
      → All (λ s. one_of s list_statuses ≡ true) out
      → ((s : String) → one_of s out ≡ one_of s before || not (str_eq s "") && one_of s typed)
      → Parsed before typed (some out)

abbrev add_all : List String → List String → Option (List String)
add_all [] out = some out
add_all (piece ∷ ps) out = then_with (add_status piece out) (add_all ps)

then_ext :
    (o : Option (List String)) (f g : List String → Option (List String))
    → ((out : List String) → f out ≡ g out)
    → then_with o f ≡ then_with o g
unfolding then_with
then_ext none f g h = refl
then_ext (some out) f g h = h out

then_assoc :
    (o : Option (List String)) (f g k : List String → Option (List String))
    → ((out : List String) → k out ≡ then_with (f out) g)
    → then_with o k ≡ then_with (then_with o f) g
unfolding then_with
then_assoc none f g k h = refl
then_assoc (some out) f g k h = h out

add_all-append :
    (ps qs out : List String) → add_all (ps ++ qs) out ≡ then_with (add_all ps out) (add_all qs)
unfolding then_with
add_all-append [] qs out = refl
add_all-append (p ∷ ps) qs out =
    then_assoc (add_status p out) (add_all ps) (add_all qs) (add_all (ps ++ qs))
      (add_all-append ps qs)

add_pieces-add_all :
    (strip : String → String) (ps out : List String)
    → add_pieces strip ps out ≡ add_all (map strip ps) out
unfolding add_pieces
add_pieces-add_all strip [] out = refl
add_pieces-add_all strip (p ∷ ps) out =
    then_ext (add_status (strip p) out) _ _ (add_pieces-add_all strip ps)

add_items-add_all :
    (strip : String → String) (value out : List String)
    → add_items strip value out ≡ add_all (pieces strip value) out
unfolding add_items
add_items-add_all strip [] out = refl
add_items-add_all strip (item ∷ value) out =
    ap (λ (o : Option (List String)). then_with o (add_items strip value))
      (add_pieces-add_all strip (split_text b',' item) out)
    ∙ then_ext (add_all (map strip (split_text b',' item)) out) _ _ (add_items-add_all strip value)
    ∙ sym (add_all-append (map strip (split_text b',' item)) (pieces strip value) out)

one_of-snoc :
    (s p : String) (out : List String) → one_of s (out ++ p ∷ []) ≡ one_of s out || str_eq s p
one_of-snoc s p [] = elim (Bool-cases (str_eq s p)) [ inl e ↦ rw e refl | inr n ↦ rw n refl ]
one_of-snoc s p (x ∷ out) = elim (Bool-cases (str_eq s x)) [
  | inl e ↦ rw e refl
  | inr n ↦ rw n (one_of-snoc s p out)
]

str_eq_sym : (s t : String) → str_eq s t ≡ false → str_eq t s ≡ false
str_eq_sym s t h = elim (str-cases t s) [
  | inl e ↦ absurd (cc (h, (eq_iff s t).1 (sym e)))
  | inr n ↦ n
]

Distinct-snoc :
    (out : List String) (p : String)
    → Distinct out
    → one_of p out ≡ false
    → Distinct (out ++ p ∷ [])
Distinct-snoc [] p d h = (refl, tt)
Distinct-snoc (x ∷ out) p (n, d) h = elim (Bool-cases (str_eq p x)) [
  | inl e ↦ absurd (cc (rw e at h))
  | inr e ↦ (one_of-snoc x p out ∙ rw (n, str_eq_sym p x e) refl, Distinct-snoc out p d (rw e at h))
]

All-snoc :
    (P : String → Type 0) (out : List String) (p : String) → All P out → P p → All P (out ++ p ∷ [])
All-snoc P [] p hs h = (h, tt)
All-snoc P (x ∷ out) p (k, hs) h = (k, All-snoc P out p hs h)

carry :
    (before typed before' typed' : List String) {o : Option (List String)}
    → ((q : String) → one_of q typed' ≡ true → one_of q typed ≡ true)
    → ((s : String)
        → one_of s before' || not (str_eq s "") && one_of s typed'
          ≡ one_of s before || not (str_eq s "") && one_of s typed)
    → Parsed before' typed' o
    → Parsed before typed o
carry b t b' t' f e (refused q i n v) = refused q (f q i) n v
carry b t b' t' f e (accepted out d v same) = accepted out d v λ s. same s ∙ e s

one_of-later : (p q : String) (ps : List String) → one_of q ps ≡ true → one_of q (p ∷ ps) ≡ true
one_of-later p q ps h = elim (Bool-cases (str_eq q p)) [ inl e ↦ rw e refl | inr n ↦ rw n h ]

or_true : (b c : Bool) → b || true || c ≡ b || true
or_true true c = refl
or_true false c = refl

or_none : (b c : Bool) → b ≡ b || c && false
or_none true c = refl
or_none false true = refl
or_none false false = refl

-- A piece that is empty, one that is there already, and a new one.
module _ (s p : String) (ps out : List String) where
  with_empty :
      str_eq p "" ≡ true
      → one_of s out || not (str_eq s "") && one_of s ps
        ≡ one_of s out || not (str_eq s "") && one_of s (p ∷ ps)
  with_empty h = elim (str-cases s p) [ inl e ↦ rw (e, h) refl | inr n ↦ rw n refl ]

  with_known :
      one_of p out ≡ true
      → str_eq p "" ≡ false
      → one_of s out || not (str_eq s "") && one_of s ps
        ≡ one_of s out || not (str_eq s "") && one_of s (p ∷ ps)
  with_known h k = elim (str-cases s p) [ inl e ↦ rw (e, h) refl | inr n ↦ rw n refl ]

  with_new :
      str_eq p "" ≡ false
      → one_of s (out ++ p ∷ []) || not (str_eq s "") && one_of s ps
        ≡ one_of s out || not (str_eq s "") && one_of s (p ∷ ps)
  with_new k = elim (str-cases s p) [
    | inl e ↦ rw (one_of-snoc s p out, e, k, (eq_iff p p).1 refl) (or_true (one_of p out) _)
    | inr n ↦ elim (Bool-cases (one_of s out)) [
      | inl i ↦ rw (one_of-snoc s p out, n, i) refl
      | inr i ↦ rw (one_of-snoc s p out, n, i) refl
    ]
  ]

add_all-Parsed :
    (typed out : List String)
    → Distinct out
    → All (λ s. one_of s list_statuses ≡ true) out
    → Parsed out typed (add_all typed out)
unfolding add_status then_with
add_all-Parsed [] out d v = accepted out d v λ s. or_none (one_of s out) (not (str_eq s ""))
add_all-Parsed (p ∷ ps) out d v = elim (Bool-cases (str_eq p "")) [
  | inl e ↦ rw e (
      carry out (p ∷ ps) out ps (λ q. one_of-later p q ps) (λ s. with_empty s p ps out e)
        (add_all-Parsed ps out d v))
  | inr n ↦ elim (Bool-cases (one_of p list_statuses)) [
    | inr k ↦ rw (n, k) (refused p (rw ((eq_iff p p).1 refl) refl) n k)
    | inl k ↦ elim (Bool-cases (one_of p out)) [
      | inl i ↦
          rw (n, k, i)
            (carry out (p ∷ ps) out ps (λ q. one_of-later p q ps) (λ s. with_known s p ps out i n)
              (add_all-Parsed ps out d v))
      | inr i ↦
          rw (n, k, i)
            (carry out (p ∷ ps) (out ++ p ∷ []) ps (λ q. one_of-later p q ps)
              (λ s. with_new s p ps out n)
              (add_all-Parsed ps (out ++ p ∷ []) (Distinct-snoc out p d i) (All-snoc _ out p v k)))
    ]
  ]
]

-- `_parse_statuses` raises BadParameter only for a piece that is not empty and is no status. If it
-- returns, the statuses are all different, each is a status, and they are exactly the pieces that are
-- not empty, where a piece is what stands between two commas, stripped.
pub parse_statuses-Parsed :
    (strip : String → String) (value : List String)
    → Parsed [] (pieces strip value) (parse_statuses strip value)
unfolding parse_statuses
parse_statuses-Parsed strip value =
    rw (add_items-add_all strip value []) (add_all-Parsed (pieces strip value) [] tt tt)
