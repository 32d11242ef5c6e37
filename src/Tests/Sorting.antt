-- ===== src/Tests/Sorting.antt =====
-- Insertion sort, which has the laws of `std::sort`.
use mathlib.Core.List.{Perm}
use mathlib.Core.List.Perm
use beauty_cl.Prelude.{
  ◌≡◌, inl, inr, refl, sym, subst, Bool, true, false, List, [], ◌∷◌, All, if◌then◌else◌, Bool-cases,
}
use beauty_cl.Router.Sorted.{StrictWeak, IsSorted, Sorts}

unfoldable pub insert_sorted {ℓ} : {A : Type ℓ} → (A → A → Bool) → A → List A → List A
insert_sorted before x [] = x ∷ []
insert_sorted before x (y ∷ ys) =
    let rest = insert_sorted before x ys in if before x y then x ∷ y ∷ ys else y ∷ rest

unfoldable pub insertion_sort {ℓ} : {A : Type ℓ} → (A → A → Bool) → List A → List A
insertion_sort before [] = []
insertion_sort before (x ∷ xs) = insert_sorted before x (insertion_sort before xs)

module _ {A : Type 0} (before : A → A → Bool) where
  insert_sorted-Perm : (x : A) (ys : List A) → Perm (insert_sorted before x ys) (x ∷ ys)
  unfolding insert_sorted
  insert_sorted-Perm x [] = Perm.refl (x ∷ [])
  insert_sorted-Perm x (y ∷ ys) = elim (Bool-cases (before x y)) [
    | inl e ↦ rw e (Perm.refl (x ∷ y ∷ ys))
    | inr e ↦ rw e (Perm.trans (Perm.cons y (insert_sorted-Perm x ys)) (Perm.swap x y ys))
  ]

  insertion_sort-Perm : (xs : List A) → Perm (insertion_sort before xs) xs
  unfolding insertion_sort
  insertion_sort-Perm [] = Perm.refl []
  insertion_sort-Perm (x ∷ xs) =
      Perm.trans (insert_sorted-Perm x (insertion_sort before xs))
        (Perm.cons x (insertion_sort-Perm xs))

  module _ (order : StrictWeak before) where
    after_head :
        (x y : A) (ys : List A)
        → before x y ≡ true
        → All (λ z. before z y ≡ false) ys
        → All (λ z. before z x ≡ false) ys
    after_head x y [] e h = tt
    after_head x y (z ∷ ys) e (h, hs) = (
      elim (Bool-cases (before z x)) [
        | inr n ↦ n
        | inl n ↦ elim ((order z y x).2 n) [ inl p ↦ cc | inr p ↦ cc ((order x y x).1 e) ]
      ],
      after_head x y ys e hs,
    )

    insert_sorted-All :
        (x w : A) (ys : List A)
        → before x w ≡ false
        → All (λ z. before z w ≡ false) ys
        → All (λ z. before z w ≡ false) (insert_sorted before x ys)
    unfolding insert_sorted
    insert_sorted-All x w [] e h = (e, tt)
    insert_sorted-All x w (y ∷ ys) e (h, hs) = elim (Bool-cases (before x y)) [
      | inl n ↦ rw n (e, (h, hs))
      | inr n ↦ rw n (h, insert_sorted-All x w ys e hs)
    ]

    insert_first :
        (x y : A) (ys : List A) → before x y ≡ true → insert_sorted before x (y ∷ ys) ≡ x ∷ y ∷ ys
    unfolding insert_sorted
    insert_first x y ys e = rw e refl

    insert_later :
        (x y : A) (ys : List A)
        → before x y ≡ false
        → insert_sorted before x (y ∷ ys) ≡ y ∷ insert_sorted before x ys
    unfolding insert_sorted
    insert_later x y ys e = rw e refl

    insert_sorted-IsSorted :
        (x : A) (ys : List A) → IsSorted before ys → IsSorted before (insert_sorted before x ys)
    insert_sorted-IsSorted x [] h = unfold insert_sorted in (tt, tt)
    insert_sorted-IsSorted x (y ∷ ys) (h, hs) = elim (Bool-cases (before x y)) [
      | inl e ↦
          subst (IsSorted before) (sym (insert_first x y ys e))
            (((order x y x).1 e, after_head x y ys e h), (h, hs))
      | inr e ↦
          subst (IsSorted before) (sym (insert_later x y ys e))
            (insert_sorted-All x y ys e h, insert_sorted-IsSorted x ys hs)
    ]

    insertion_sort-IsSorted : (xs : List A) → IsSorted before (insertion_sort before xs)
    unfolding insertion_sort
    insertion_sort-IsSorted [] = tt
    insertion_sort-IsSorted (x ∷ xs) =
        insert_sorted-IsSorted x (insertion_sort before xs) (insertion_sort-IsSorted xs)

pub insertion_sort-Sorts : {A : Type 0} → Sorts (insertion_sort {A = A})
insertion_sort-Sorts = record {
  permutes = insertion_sort-Perm;
  sorts = λ before xs order. insertion_sort-IsSorted before order xs;
}
