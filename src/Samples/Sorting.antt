-- ===== src/Samples/Sorting.antt =====
-- Insertion sort, for the tests of what calls `sort.Slice`.
use mathlib.Core.List.{Perm}
use mathlib.Core.List.Perm
use tunnel_ops.Base.{
  Str, str_lt, Bool, true, false, List, [], ◌∷◌, if◌then◌else◌, All, ◌≡◌, refl, arith, inl, inr,
  Bool-cases,
}

str_lt_trans : (x y z : Str) → str_lt x y ≡ true → str_lt y z ≡ true → str_lt x z ≡ true
unfolding str_lt
str_lt_trans [] [] z h k = cc
str_lt_trans [] (b ∷ bs) [] h k = cc
str_lt_trans [] (b ∷ bs) (c ∷ cs) h k = refl
str_lt_trans (a ∷ rest) [] z h k = cc
str_lt_trans (a ∷ rest) (b ∷ bs) [] h k = cc
str_lt_trans (a ∷ rest) (b ∷ bs) (c ∷ cs) h k = ground (arith, str_lt_trans rest bs cs)

str_lt_irrefl : (x : Str) → str_lt x x ≡ false
unfolding str_lt
str_lt_irrefl [] = refl
str_lt_irrefl (a ∷ rest) = ground (arith, str_lt_irrefl rest)

module _ {A : Type 0} (name : A → Str) where
  abbrev less : A → A → Bool
  less a b = str_lt (name a) (name b)

  abbrev insert_by : (A → A → Bool) → A → List A → List A
  insert_by lt a [] = a ∷ []
  insert_by lt a (b ∷ bs) = if lt a b then a ∷ b ∷ bs else b ∷ insert_by lt a bs

  abbrev pub sort_by : (A → A → Bool) → List A → List A
  sort_by lt [] = []
  sort_by lt (a ∷ rest) = insert_by lt a (sort_by lt rest)

  abbrev pub IsOrdered : List A → Type 0
  IsOrdered [] = Unit
  IsOrdered (a ∷ rest) = All (λ later. less later a ≡ false) rest × IsOrdered rest

  insert_by-Perm : (lt : A → A → Bool) (a : A) (bs : List A) → Perm (insert_by lt a bs) (a ∷ bs)
  insert_by-Perm lt a [] = Perm.refl (a ∷ [])
  insert_by-Perm lt a (b ∷ bs) = elim (Bool-cases (lt a b)) [
    | inl h ↦ rw h (Perm.refl (a ∷ b ∷ bs))
    | inr h ↦ rw h (Perm.trans (Perm.cons b (insert_by-Perm lt a bs)) (Perm.swap a b bs))
  ]

  pub sort_by-Perm : (lt : A → A → Bool) (rest : List A) → Perm (sort_by lt rest) rest
  sort_by-Perm lt [] = Perm.nil
  sort_by-Perm lt (a ∷ rest) =
      Perm.trans (insert_by-Perm lt a (sort_by lt rest)) (Perm.cons a (sort_by-Perm lt rest))

  -- What is not less than b is not less than what is less than b.
  All-lower :
      (a b : A) (cs : List A)
      → less a b ≡ true
      → All (λ later. less later b ≡ false) cs
      → All (λ later. less later a ≡ false) cs
  All-lower a b [] h k = tt
  All-lower a b (c ∷ cs) h k =
      (ground (arith, str_lt_trans (name c) (name a) (name b)), All-lower a b cs h k.1)

  All-insert_by :
      (a b : A) (cs : List A)
      → less a b ≡ false
      → All (λ later. less later b ≡ false) cs
      → All (λ later. less later b ≡ false) (insert_by less a cs)
  All-insert_by a b [] h k = (h, tt)
  All-insert_by a b (c ∷ cs) h k = elim (Bool-cases (less a c)) [
    | inl e ↦ rw e (h, k)
    | inr e ↦ rw e (k.0, All-insert_by a b cs h k.1)
  ]

  insert_by-IsOrdered : (a : A) (bs : List A) → IsOrdered bs → IsOrdered (insert_by less a bs)
  insert_by-IsOrdered a [] h = (tt, tt)
  insert_by-IsOrdered a (b ∷ bs) h = elim (Bool-cases (less a b)) [
    | inl e ↦
        let later : less b a ≡ false =
          ground (arith, str_lt_trans (name b) (name a) (name b), str_lt_irrefl (name b)) in
        rw e ((later, All-lower a b bs e h.0), h)
    | inr e ↦ rw e (All-insert_by a b bs e h.0, insert_by-IsOrdered a bs h.1)
  ]

  pub sort_by-IsOrdered : (rest : List A) → IsOrdered (sort_by less rest)
  sort_by-IsOrdered [] = tt
  sort_by-IsOrdered (a ∷ rest) = insert_by-IsOrdered a (sort_by less rest) (sort_by-IsOrdered rest)
