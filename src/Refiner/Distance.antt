-- ===== src/Refiner/Distance.antt =====
-- `levenshtein` against what it computes: the least cost of an edit of one text into the other.
use a_meet.Prelude.{
  ℕ, suc, ◌+◌, ◌≤◌, ◌≡◌, refl, sym, ap, subst, ◌∙◌, Bool, List, [], ◌∷◌, some, arith, if◌then◌else◌,
  length, get_elem?, or_else, nat_beq, ◌⊎◌, inl, inr,
}
use a_meet.Refiner.{cell, next_cells, first_row, rows, levenshtein}

-- An edit, from the front: a letter is left out, put in, or changed, perhaps to itself.
pub data Edit : List ℕ → List ℕ → Type 0 where
  done : Edit [] []
  omit : {xs ys : List ℕ} (x : ℕ) → Edit xs ys → Edit (x ∷ xs) ys
  put : {xs ys : List ℕ} (y : ℕ) → Edit xs ys → Edit xs (y ∷ ys)
  change : {xs ys : List ℕ} (x y : ℕ) → Edit xs ys → Edit (x ∷ xs) (y ∷ ys)

abbrev pub cost : {xs ys : List ℕ} → Edit xs ys → ℕ
cost done = 0
cost (omit x e) = suc (cost e)
cost (put y e) = suc (cost e)
cost (change x y e) = cost e + (if nat_beq x y then 0 else 1)

-- The least cost, by recursion on both texts.
least : List ℕ → List ℕ → ℕ
least [] ys = length ys
least (x ∷ xs) [] = suc (length xs)
least (x ∷ xs) (y ∷ ys) = cell (least (x ∷ xs) ys) (least xs (y ∷ ys)) (least xs ys) (nat_beq x y)

-- The two sides of `least` on an edit.
least-omit : (x : ℕ) (xs ys : List ℕ) → least (x ∷ xs) ys ≤ suc (least xs ys)
unfolding least
least-omit x [] [] = omega arith
least-omit x (z ∷ xs) [] = omega arith
least-omit x xs (y ∷ ys) = ground arith

least-put : (y : ℕ) (xs ys : List ℕ) → least xs (y ∷ ys) ≤ suc (least xs ys)
unfolding least
least-put y [] ys = omega arith
least-put y (x ∷ xs) ys = ground arith

least-change :
    (x y : ℕ) (xs ys : List ℕ)
    → least (x ∷ xs) (y ∷ ys) ≤ least xs ys + (if nat_beq x y then 0 else 1)
unfolding least
least-change x y xs ys = ground arith

least-le-cost : {xs ys : List ℕ} (e : Edit xs ys) → least xs ys ≤ cost e
unfolding least
least-le-cost done = omega arith
least-le-cost (omit {xs} {ys} x e) = omega (arith, least-omit x xs ys, least-le-cost e)
least-le-cost (put {xs} {ys} y e) = omega (arith, least-put y xs ys, least-le-cost e)
least-le-cost (change {xs} {ys} x y e) = omega (arith, least-change x y xs ys, least-le-cost e)

-- An edit of this cost.
abbrev Costs : List ℕ → List ℕ → ℕ → Type 0
Costs xs ys n = (e : Edit xs ys) × (cost e ≡ n)

all_put : (ys : List ℕ) → Costs [] ys (length ys)
all_put [] = (done, refl)
all_put (y ∷ ys) = let (e, c) = all_put ys in (put y e, ap suc c)

all_omit : (xs : List ℕ) → Costs xs [] (length xs)
all_omit [] = (done, refl)
all_omit (x ∷ xs) = let (e, c) = all_omit xs in (omit x e, ap suc c)

cell-cases :
    (l a d : ℕ) (same : Bool)
    → (suc l ≡ cell l a d same)
      ⊎ ((suc a ≡ cell l a d same) ⊎ (d + (if same then 0 else 1) ≡ cell l a d same))
cell-cases l a d same = ground arith

-- The way that the cell was reached is the first step of the edit.
least-Costs : (xs ys : List ℕ) → Costs xs ys (least xs ys)
unfolding least
least-Costs [] ys = all_put ys
least-Costs (x ∷ xs) [] = all_omit (x ∷ xs)
least-Costs (x ∷ xs) (y ∷ ys) =
    let (p, p_cost) = least-Costs (x ∷ xs) ys in
    let (o, o_cost) = least-Costs xs (y ∷ ys) in
    let (c, c_cost) = least-Costs xs ys in
    elim (cell-cases (least (x ∷ xs) ys) (least xs (y ∷ ys)) (least xs ys) (nat_beq x y)) [
      | inl e ↦ (put y p, ap suc p_cost ∙ e)
      | inr (inl e) ↦ (omit x o, ap suc o_cost ∙ e)
      | inr (inr e) ↦ (change x y c, ap (λ n. n + (if nat_beq x y then 0 else 1)) c_cost ∙ e)
    ]

-- The first text, backwards, before the second.
abbrev onto : List ℕ → List ℕ → List ℕ
onto [] us = us
onto (x ∷ xs) us = onto xs (x ∷ us)

onto-onto : (xs us : List ℕ) → onto (onto xs us) [] ≡ onto us xs
onto-onto [] us = refl
onto-onto (x ∷ xs) us = onto-onto xs (x ∷ us)

-- An edit can be made from the back.
reversed :
    {xs ys us vs : List ℕ} (e : Edit xs ys) (f : Edit us vs)
    → Costs (onto xs us) (onto ys vs) (cost e + cost f)
reversed done f = (f, omega arith)
reversed (omit x e) f = let (g, c) = reversed e (omit x f) in (g, omega (arith, c))
reversed (put y e) f = let (g, c) = reversed e (put y f) in (g, omega (arith, c))
reversed (change x y e) f = let (g, c) = reversed e (change x y f) in (g, omega (arith, c))

-- The cells of the table for a first text and the prefixes of a second, both backwards.
abbrev cells : List ℕ → List ℕ → List ℕ → List ℕ
cells xs us [] = []
cells xs us (y ∷ ys) = least xs (y ∷ us) ∷ cells xs (y ∷ us) ys

next_cells-cells :
    (x : ℕ) (xs us ys : List ℕ)
    → next_cells x (least (x ∷ xs) us) (least xs us ∷ cells xs us ys) ys ≡ cells (x ∷ xs) us ys
unfolding next_cells least
next_cells-cells x xs us [] = refl
next_cells-cells x xs us (y ∷ ys) =
    ap (λ l. least (x ∷ xs) (y ∷ us) ∷ l) (next_cells-cells x xs (y ∷ us) ys)

first_row-cells :
    (n : ℕ) (us ys : List ℕ) → n ≡ least [] us → first_row n ys ≡ least [] us ∷ cells [] us ys
unfolding first_row least
first_row-cells n us [] e = ground (arith, e)
first_row-cells n us (y ∷ ys) e = ground (arith, e, first_row-cells (suc n) (y ∷ us) ys (ap suc e))

least-nil : (xs : List ℕ) → least xs [] ≡ length xs
unfolding least
least-nil [] = refl
least-nil (x ∷ xs) = refl

rows-cells :
    (i : ℕ) (xs a b : List ℕ) (row : List ℕ)
    → i ≡ length xs
    → row ≡ least xs [] ∷ cells xs [] b
    → rows i row a b ≡ least (onto a xs) [] ∷ cells (onto a xs) [] b
unfolding rows least
rows-cells i xs [] b row n e = e
rows-cells i xs (x ∷ a) b row n e =
    let k = suc (length xs) in
    rows-cells (suc i) (x ∷ xs) a b (suc i ∷ next_cells x (suc i) row b) (ap suc n) (
      ap (λ j. j ∷ next_cells x j row b) (ap suc n)
      ∙ ap (λ r. k ∷ next_cells x k r b) e
      ∙ ap (λ l. k ∷ l) (next_cells-cells x xs [] b))

get_elem?-cells :
    (xs us ys : List ℕ)
    → get_elem? (least xs us ∷ cells xs us ys) (length ys) ≡ some (least xs (onto ys us))
get_elem?-cells xs us [] = refl
get_elem?-cells xs us (y ∷ ys) = get_elem?-cells xs (y ∷ us) ys

length-onto : (xs us : List ℕ) → length (onto xs us) ≡ length xs + length us
length-onto [] us = omega arith
length-onto (x ∷ xs) us = omega (arith, length-onto xs (x ∷ us))

levenshtein-least : (a b : List ℕ) → levenshtein a b ≡ least (onto a []) (onto b [])
unfolding levenshtein
levenshtein-least [] b = unfold least in omega (arith, length-onto b [])
levenshtein-least (x ∷ a) [] =
    sym (least-nil (onto (x ∷ a) []) ∙ omega (arith, length-onto (x ∷ a) []))
levenshtein-least (x ∷ a) (y ∷ b) =
    ap (λ r. or_else (get_elem? r (length (y ∷ b))) 0)
      (rows-cells 0 [] (x ∷ a) (y ∷ b) (first_row 0 (y ∷ b)) refl
        (first_row-cells 0 [] (y ∷ b) (unfold least in refl)))
    ∙ ap (λ o. or_else o 0) (get_elem?-cells (onto (x ∷ a) []) [] (y ∷ b))

-- There is an edit of the first text into the second whose cost is what `levenshtein` answers, and
-- no edit costs less.
pub levenshtein-IsLeast :
    (a b : List ℕ) (other : Edit a b)
    → ((e : Edit a b) × (cost e ≡ levenshtein a b)) × (levenshtein a b ≤ cost other)
levenshtein-IsLeast a b other =
    let (e, c) = least-Costs (onto a []) (onto b []) in
    let (f, d) = reversed e done in
    let (g, k) = reversed other done in
    let back : Costs a b (cost e + 0) =
      subst (λ xs. Costs xs b (cost e + 0)) (onto-onto a [])
        (subst (λ ys. Costs (onto (onto a []) []) ys (cost e + 0)) (onto-onto b []) (f, d)) in
    (
      (back.0, omega (arith, back.1, c, levenshtein-least a b)),
      omega (arith, k, least-le-cost g, levenshtein-least a b),
    )
