-- ===== src/Engine/Members.antt =====
-- Membership with its place, and membership in order, over lists.
use my_arbitrager.Prelude.{
  ◌≡◌, refl, sym, ap, ◌∙◌, ◌⊎◌, inl, inr, Bool, true, false, List, [], ◌∷◌, ◌++◌, if◌then◌else◌,
  arith, Bool-cases, if-true, if-false, subst,
}

module _ {A : Type 0} where
  abbrev pub In : A → List A → Type 0
  In x [] = ⊥
  In x (y ∷ ys) = (x ≡ y) ⊎ In x ys

  -- `x` stands before `y`.
  abbrev pub InOrder : A → A → List A → Type 0
  InOrder x y [] = ⊥
  InOrder x y (z ∷ zs) = ((x ≡ z) × In y zs) ⊎ InOrder x y zs

  pub In-append : (x : A) (xs ys : List A) → In x (xs ++ ys) → In x xs ⊎ In x ys
  In-append x [] ys h = inr h
  In-append x (z ∷ xs) ys (inl e) = inl (inl e)
  In-append x (z ∷ xs) ys (inr h) = elim (In-append x xs ys h) [
    | inl a ↦ inl (inr a)
    | inr b ↦ inr b
  ]

  pub In-append_left : (x : A) (xs ys : List A) → In x xs → In x (xs ++ ys)
  In-append_left x [] ys h = elim h [ ]
  In-append_left x (z ∷ xs) ys (inl e) = inl e
  In-append_left x (z ∷ xs) ys (inr h) = inr (In-append_left x xs ys h)

  pub In-append_right : (x : A) (xs ys : List A) → In x ys → In x (xs ++ ys)
  In-append_right x [] ys h = h
  In-append_right x (z ∷ xs) ys h = inr (In-append_right x xs ys h)

  -- The entries that pass a test, in order.
  unfoldable pub filter : (A → Bool) → List A → List A
  filter p [] = []
  filter p (x ∷ xs) = if p x then x ∷ filter p xs else filter p xs

  pub filter-append :
      (p : A → Bool) (xs ys : List A) → filter p (xs ++ ys) ≡ filter p xs ++ filter p ys
  unfolding filter
  filter-append p [] ys = refl
  filter-append p (x ∷ xs) ys = ground (arith, filter-append p xs ys)

  -- Being in a list or in its head's place, carried along two maps.
  In-cons :
      {P Q : Type 0} (x z : A) (xs : List A)
      → (x ≡ z → P × Q)
      → (In x xs → P × Q)
      → In x (z ∷ xs)
      → P × Q
  In-cons x z xs f g (inl e) = f e
  In-cons x z xs f g (inr m) = g m

  pub In-filter : (p : A → Bool) (x : A) (xs : List A) → In x (filter p xs) → In x xs × (p x ≡ true)
  unfolding filter
  In-filter p x [] h = elim h [ ]
  In-filter p x (z ∷ xs) h = elim (Bool-cases (p z)) [
    | inl e ↦
        In-cons x z (filter p xs) (λ q. (inl q, ap p q ∙ e))
          (λ m. let (a, b) = In-filter p x xs m in (inr a, b)) (subst (In x) (if-true _ _ e) h)
    | inr e ↦ let (a, b) = In-filter p x xs (subst (In x) (if-false _ _ e) h) in (inr a, b)
  ]

  pub filter-In : (p : A → Bool) (x : A) (xs : List A) → In x xs → p x ≡ true → In x (filter p xs)
  unfolding filter
  filter-In p x [] h e = elim h [ ]
  filter-In p x (z ∷ xs) (inl q) e = rw (ap p (sym q) ∙ e) (inl q)
  filter-In p x (z ∷ xs) (inr m) e = elim (Bool-cases (p z)) [
    | inl f ↦ rw f (inr (filter-In p x xs m e))
    | inr f ↦ rw f (filter-In p x xs m e)
  ]

  InOrder-cons :
      {R : Type 0} (x y z : A) (zs : List A)
      → (x ≡ z → In y zs → R)
      → (InOrder x y zs → R)
      → InOrder x y (z ∷ zs)
      → R
  InOrder-cons x y z zs f g (inl q) = f q.0 q.1
  InOrder-cons x y z zs f g (inr m) = g m

  -- The entries kept by a filter stand in the order of the list, and all pass the test.
  pub InOrder-filter :
      (p : A → Bool) (x y : A) (xs : List A)
      → InOrder x y (filter p xs)
      → InOrder x y xs × (p x ≡ true) × (p y ≡ true)
  unfolding filter
  InOrder-filter p x y [] h = elim h [ ]
  InOrder-filter p x y (z ∷ zs) h = elim (Bool-cases (p z)) [
    | inl e ↦
        InOrder-cons x y z (filter p zs)
          (λ q m. let (a, b) = In-filter p y zs m in (inl (q, a), ap p q ∙ e, b))
          (λ m. let (a, b, c) = InOrder-filter p x y zs m in (inr a, b, c))
          (subst (InOrder x y) (if-true _ _ e) h)
    | inr e ↦
        let (a, b, c) = InOrder-filter p x y zs (subst (InOrder x y) (if-false _ _ e) h) in
        (inr a, b, c)
  ]

  pub filter-InOrder :
      (p : A → Bool) (x y : A) (xs : List A)
      → InOrder x y xs
      → p x ≡ true
      → p y ≡ true
      → InOrder x y (filter p xs)
  unfolding filter
  filter-InOrder p x y [] h e f = elim h [ ]
  filter-InOrder p x y (z ∷ zs) (inl (q, m)) e f =
      rw (ap p (sym q) ∙ e) (inl (q, filter-In p y zs m f))
  filter-InOrder p x y (z ∷ zs) (inr m) e f = elim (Bool-cases (p z)) [
    | inl g ↦ rw g (inr (filter-InOrder p x y zs m e f))
    | inr g ↦ rw g (filter-InOrder p x y zs m e f)
  ]

  -- What comes out of a list that a test lets through.
  pub In-guarded : (c : Bool) (x y : A) → In x (if c then y ∷ [] else []) → (c ≡ true) × (x ≡ y)
  In-guarded true x y (inl e) = (refl, e)
  In-guarded true x y (inr h) = elim h [ ]
  In-guarded false x y h = elim h [ ]
