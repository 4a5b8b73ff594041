-- ===== src/State/Cleanup/Reverse.antt =====
-- The loop that swaps the ends of a slice reverses it.
use hambone.Base.{
  ℕ, zero, suc, ◌-◌, ◌*◌, ◌/◌, ◌≤◌, ◌<◌, ◌≡◌, ◌≢◌, refl, sym, ◌∙◌, ap, Option, none, some, List, [],
  ◌∷◌, ◌++◌, reverse, length, length-append, arith,
}
use hambone.State.Cleanup.{get_elem?, set, swap, reverse_rounds, reverse_slice}
use mathlib.Core.List.{reverse-cons}
use native.Mathlib.Decide.{dec_lt, ℕ_discrete}

at_suc : (l j : ℕ) → j < l → suc (l - 1 - j) ≡ suc l - 1 - j
at_suc l j p = omega arith

at_zero : (l j : ℕ) → l ≤ j → zero ≡ suc l - 1 - j
at_zero l j p = omega arith

twice : (i l : ℕ) → i < l → i ≡ l - 1 - (l - 1 - i)
twice i l p = omega arith

own_mirror : (j l : ℕ) → l / 2 ≤ j → j < l - l / 2 → j ≡ l - 1 - j
own_mirror j l p q = omega arith

module _ {ℓ} {A : Type ℓ} where
  length-set : (xs : List A) (i : ℕ) (o : Option A) → length (set xs i o) ≡ length xs
  unfolding set
  length-set xs i none = refl
  length-set [] i (some a) = refl
  length-set (x ∷ xs) zero (some a) = refl
  length-set (x ∷ xs) (suc i) (some a) = ap suc (length-set xs i (some a))

  get_elem?-set_self :
      (xs : List A) (i : ℕ) (a : A) → i < length xs → get_elem? (set xs i (some a)) i ≡ some a
  unfolding get_elem? set
  get_elem?-set_self [] i a h = elim h [ ]
  get_elem?-set_self (x ∷ xs) zero a h = refl
  get_elem?-set_self (x ∷ xs) (suc i) a h = get_elem?-set_self xs i a (omega arith)

  get_elem?-set_ne :
      (xs : List A) (i j : ℕ) (o : Option A) → i ≢ j → get_elem? (set xs i o) j ≡ get_elem? xs j
  unfolding get_elem? set
  get_elem?-set_ne xs i j none h = refl
  get_elem?-set_ne [] i j (some a) h = refl
  get_elem?-set_ne (x ∷ xs) zero zero (some a) h = absurd (h refl)
  get_elem?-set_ne (x ∷ xs) zero (suc j) (some a) h = refl
  get_elem?-set_ne (x ∷ xs) (suc i) zero (some a) h = refl
  get_elem?-set_ne (x ∷ xs) (suc i) (suc j) (some a) h =
      get_elem?-set_ne xs i j (some a) (λ e. h (ap suc e))

  get_elem?-some : (xs : List A) (i : ℕ) → i < length xs → (a : A) × (get_elem? xs i ≡ some a)
  unfolding get_elem?
  get_elem?-some [] i h = elim h [ ]
  get_elem?-some (x ∷ xs) zero h = (x, refl)
  get_elem?-some (x ∷ xs) (suc i) h = get_elem?-some xs i (omega arith)

  -- Lists of one length with the same elements are equal.
  list_ext :
      (xs ys : List A)
      → length xs ≡ length ys
      → ((j : ℕ) → j < length xs → get_elem? xs j ≡ get_elem? ys j)
      → xs ≡ ys
  unfolding get_elem?
  list_ext [] [] l h = refl
  list_ext [] (y ∷ ys) l h = absurd (omega arith)
  list_ext (x ∷ xs) [] l h = absurd (omega arith)
  list_ext (x ∷ xs) (y ∷ ys) l h =
      cc (h 0 (omega arith), list_ext xs ys (omega arith) (λ j p. h (suc j) (omega arith)))

  get_elem?-append_left :
      (xs ys : List A) (j : ℕ) → j < length xs → get_elem? (xs ++ ys) j ≡ get_elem? xs j
  unfolding get_elem?
  get_elem?-append_left [] ys j h = elim h [ ]
  get_elem?-append_left (x ∷ xs) ys zero h = refl
  get_elem?-append_left (x ∷ xs) ys (suc j) h = get_elem?-append_left xs ys j (omega arith)

  get_elem?-append_end :
      (xs : List A) (y : A) (j : ℕ) → j ≡ length xs → get_elem? (xs ++ y ∷ []) j ≡ some y
  unfolding get_elem?
  get_elem?-append_end [] y zero h = refl
  get_elem?-append_end [] y (suc j) h = absurd (omega arith)
  get_elem?-append_end (x ∷ xs) y zero h = absurd (omega arith)
  get_elem?-append_end (x ∷ xs) y (suc j) h = get_elem?-append_end xs y j (omega arith)

  length-reverse : (xs : List A) → length (reverse xs) ≡ length xs
  length-reverse [] = refl
  length-reverse (x ∷ xs) =
      rw reverse-cons (omega (arith, length-append (reverse xs) (x ∷ []), length-reverse xs))

  get_elem?-reverse :
      (xs : List A) (j : ℕ)
      → j < length xs
      → get_elem? (reverse xs) j ≡ get_elem? xs (length xs - 1 - j)
  unfolding get_elem?
  get_elem?-reverse [] j h = elim h [ ]
  get_elem?-reverse (x ∷ xs) j h = rw reverse-cons (elim (dec_lt j (length xs)) [
    | yes p ↦
        get_elem?-append_left (reverse xs) _ j (rw length-reverse p)
        ∙ (get_elem?-reverse xs j p ∙ ap (get_elem? (x ∷ xs)) (at_suc (length xs) j p))
    | no p ↦
        get_elem?-append_end (reverse xs) x j (rw length-reverse (omega arith))
        ∙ ap (get_elem? (x ∷ xs)) (at_zero (length xs) j (omega arith))
  ])

  module _ (xs : List A) (i j : ℕ) where
    length-swap : length (swap xs i j) ≡ length xs
    unfolding swap
    length-swap = length-set _ j _ ∙ length-set xs i _

    get_elem?-swap_ne : (k : ℕ) → i ≢ k → j ≢ k → get_elem? (swap xs i j) k ≡ get_elem? xs k
    unfolding swap
    get_elem?-swap_ne k p q = get_elem?-set_ne _ j k _ q ∙ get_elem?-set_ne xs i k _ p

    get_elem?-swap_right :
        i < length xs → j < length xs → get_elem? (swap xs i j) j ≡ get_elem? xs i
    unfolding swap
    get_elem?-swap_right p q =
        let (a, e) = get_elem?-some xs i p in rw e (get_elem?-set_self _ j a (rw length-set q))

    get_elem?-swap_left : i < length xs → j < length xs → get_elem? (swap xs i j) i ≡ get_elem? xs j
    unfolding swap
    get_elem?-swap_left p q =
        let (a, e) = get_elem?-some xs j q in
        rw e (elim (ℕ_discrete j i) [
          | yes same ↦
              let e' : get_elem? xs i ≡ some a = rw same at e in
              rw (same, e') (get_elem?-set_self _ i a (rw length-set p))
          | no differ ↦ get_elem?-set_ne _ j i _ differ ∙ get_elem?-set_self xs i a p
        ])

  -- After the rounds below `n` the outer elements are mirrored, and the inner ones untouched.
  record Mirrored (n l : ℕ) (xs ys : List A) : Type ℓ where
    same_length : length ys ≡ l
    front : (j : ℕ) → j < n → get_elem? ys j ≡ get_elem? xs (l - 1 - j)
    back : (j : ℕ) → l - n ≤ j → j < l → get_elem? ys j ≡ get_elem? xs (l - 1 - j)
    inner : (j : ℕ) → n ≤ j → j < l - n → get_elem? ys j ≡ get_elem? xs j

  module _ (xs : List A) (i l : ℕ) (e : length xs ≡ l) (h : suc i * 2 ≤ l) where
    -- One more round before the others: the pair `i` is swapped first.
    Mirrored-swap :
        (zs : List A) → Mirrored i l (swap xs i (l - 1 - i)) zs → Mirrored (suc i) l xs zs
    Mirrored-swap zs m = record {
      same_length = m.same_length;
      front = λ j p. elim (ℕ_discrete j i) [
        | yes same ↦ rw same (
            m.inner i (omega arith) (omega arith)
            ∙ get_elem?-swap_left xs i (l - 1 - i) (rw e (omega arith)) (rw e (omega arith)))
        | no differ ↦
            m.front j (omega arith)
            ∙ get_elem?-swap_ne xs i (l - 1 - i) (l - 1 - j) (omega arith) (omega arith)
      ];
      back = λ j p q. elim (ℕ_discrete j (l - 1 - i)) [
        | yes same ↦ rw same (
            m.inner (l - 1 - i) (omega arith) (omega arith)
            ∙ (get_elem?-swap_right xs i (l - 1 - i) (rw e (omega arith)) (rw e (omega arith))
                ∙ ap (get_elem? xs) (twice i l (omega arith))))
        | no differ ↦
            m.back j (omega arith) q
            ∙ get_elem?-swap_ne xs i (l - 1 - i) (l - 1 - j) (omega arith) (omega arith)
      ];
      inner = λ j p q.
          m.inner j (omega arith) (omega arith)
          ∙ get_elem?-swap_ne xs i (l - 1 - i) j (omega arith) (omega arith);
    }

  reverse_rounds-Mirrored :
      (n l : ℕ) (xs : List A) → length xs ≡ l → n * 2 ≤ l → Mirrored n l xs (reverse_rounds n xs)
  unfolding reverse_rounds
  reverse_rounds-Mirrored zero l xs e h = record {
    same_length = e;
    front = λ j p. absurd (omega arith);
    back = λ j p q. absurd (omega arith);
    inner = λ j p q. refl;
  }
  reverse_rounds-Mirrored (suc i) l xs e h = rw e (
      Mirrored-swap xs i l e h _ (
        reverse_rounds-Mirrored i l (swap xs i (l - 1 - i)) (length-swap xs i _ ∙ e) (omega arith)))

  module _ (l : ℕ) (xs ys : List A) (e : length xs ≡ l) (m : Mirrored (l / 2) l xs ys) where
    -- Every index is in the front half, in the back half, or the middle one, its own mirror.
    mirror : (j : ℕ) → j < l → get_elem? ys j ≡ get_elem? xs (l - 1 - j)
    mirror j p = elim (dec_lt j (l / 2)) [
      | yes low ↦ m.front j low
      | no high ↦ elim (dec_lt j (l - l / 2)) [
        | yes middle ↦
            m.inner j (omega arith) middle
            ∙ ap (get_elem? xs) (own_mirror j l (omega arith) (omega arith))
        | no back ↦ m.back j (omega arith) p
      ]
    ]

  -- The loop that swaps the elements of a slice in place, the middle ones first, reverses it.
  pub reverse_slice-eq-reverse : (xs : List A) → reverse_slice xs ≡ reverse xs
  unfolding reverse_slice
  reverse_slice-eq-reverse xs =
      let m = reverse_rounds-Mirrored (length xs / 2) (length xs) xs refl (omega arith) in
      list_ext _ _ (m.same_length ∙ sym (length-reverse xs)) λ j p.
        let q : j < length xs = omega (arith, m.same_length) in
        mirror (length xs) xs _ refl m j q ∙ sym (get_elem?-reverse xs j q)
