-- ===== src/Prelude/Maps.antt =====
-- `Map<string, V>` and `Set<string>` in insertion order: association lists and lists of keys.
-- The functions are shut; proofs about the program go through the laws below.
use a_meet.Prelude.{
  suc, ◌≤◌, ◌<◌, String, ◌==◌, eq_iff, ◌≡◌, ◌≢◌, refl, Bool, true, false, Option, none, some, List,
  [], ◌∷◌, ◌++◌, map, arith, if◌then◌else◌, is_some, length, ◌||◌, All, In, Bool-cases, inl, inr,
}

module _ {ℓ} {V : Type ℓ} where
  unfoldable pub get : String → List (String × V) → Option V
  get k [] = none
  get k ((j, v) ∷ m) = if j == k then some v else get k m

  -- A key that is present keeps its place.
  unfoldable pub set : String → V → List (String × V) → List (String × V)
  set k v [] = (k, v) ∷ []
  set k v ((j, w) ∷ m) = if j == k then (k, v) ∷ m else (j, w) ∷ set k v m

  unfoldable pub delete : String → List (String × V) → List (String × V)
  delete k [] = []
  delete k ((j, w) ∷ m) = let rest = delete k m in if j == k then rest else (j, w) ∷ rest

  abbrev pub has : String → List (String × V) → Bool
  has k m = is_some (get k m)

  abbrev pub values : List (String × V) → List V
  values = map (λ e. e.1)

  pub get-set :
      (k j : String) (v : V) (m : List (String × V))
      → get j (set k v m) ≡ (if k == j then some v else get j m)
  unfolding get set
  get-set k j v [] = refl
  get-set k j v ((i, w) ∷ m) = ground (arith, eq_iff k j, eq_iff i k, eq_iff i j, get-set k j v m)

  pub get-delete :
      (k j : String) (m : List (String × V))
      → get j (delete k m) ≡ (if k == j then none else get j m)
  unfolding get delete
  get-delete k j [] = ground arith
  get-delete k j ((i, w) ∷ m) = ground (arith, eq_iff k j, eq_iff i k, eq_iff i j, get-delete k j m)

  pub get-set_self : (k : String) (v : V) (m : List (String × V)) → get k (set k v m) ≡ some v
  get-set_self k v m = ground (arith, eq_iff k k, get-set k k v m)

  pub get-set_ne :
      (k j : String) (v : V) (m : List (String × V)) → k ≢ j → get j (set k v m) ≡ get j m
  get-set_ne k j v m h = ground (arith, eq_iff k j, get-set k j v m)

  pub length-set :
      (k : String) (v : V) (m : List (String × V))
      → length (set k v m) ≡ (if has k m then length m else suc (length m))
  unfolding get set
  length-set k v [] = refl
  length-set k v ((i, w) ∷ m) = ground (arith, length-set k v m)

  pub length-delete-le : (k : String) (m : List (String × V)) → length (delete k m) ≤ length m
  unfolding delete
  length-delete-le k [] = omega arith
  length-delete-le k ((i, w) ∷ m) = ground (arith, length-delete-le k m)

  pub length-delete-lt :
      (k : String) (m : List (String × V)) → has k m ≡ true → length (delete k m) < length m
  unfolding get delete
  length-delete-lt k [] h = cc
  length-delete-lt k ((i, w) ∷ m) h = ground (arith, length-delete-le k m, length-delete-lt k m)

  -- What holds of every entry.
  module _ {κ} (P : String × V → Type κ) where
    pub All-set :
        (k : String) (v : V) (m : List (String × V)) → P (k, v) → All P m → All P (set k v m)
    unfolding set
    All-set k v [] p h = (p, tt)
    All-set k v ((i, w) ∷ m) p h = ground (arith, All-set k v m p h.1)

    pub All-delete : (k : String) (m : List (String × V)) → All P m → All P (delete k m)
    unfolding delete
    All-delete k [] h = tt
    All-delete k ((i, w) ∷ m) h = ground (arith, All-delete k m h.1)

    pub All-get :
        (k : String) (v : V) (m : List (String × V)) → All P m → get k m ≡ some v → P (k, v)
    unfolding get
    All-get k v [] h e = cc
    All-get k v ((i, w) ∷ m) h e = ground (arith, eq_iff i k, All-get k v m h.1)

  -- No key stands twice, as in every `Map`.
  abbrev pub Unique : List (String × V) → Type ℓ
  Unique [] = Unit
  Unique ((k, v) ∷ m) = (get k m ≡ none) × Unique m

  pub set-Unique : (k : String) (v : V) (m : List (String × V)) → Unique m → Unique (set k v m)
  unfolding set get
  set-Unique k v [] h = (refl, tt)
  set-Unique k v ((i, w) ∷ m) h =
      ground (arith, eq_iff i k, eq_iff k i, set-Unique k v m h.1, get-set k i v m)

  pub delete-Unique : (k : String) (m : List (String × V)) → Unique m → Unique (delete k m)
  unfolding delete
  delete-Unique k [] h = tt
  delete-Unique k ((i, w) ∷ m) h = ground (arith, delete-Unique k m h.1, get-delete k i m)

module _ {V : Type 0} where
  -- What is looked up is an entry.
  pub In-get : (k : String) (v : V) (m : List (String × V)) → get k m ≡ some v → In (k, v) m
  unfolding get
  In-get k v [] h = absurd (ground arith)
  In-get k v ((i, w) ∷ m) h = elim (Bool-cases (i == k)) [
    | inl e ↦ inl (ground (arith, eq_iff i k))
    | inr e ↦ inr (In-get k v m (ground arith))
  ]

-- `Set<string>`.
unfoldable pub contains : String → List String → Bool
contains k [] = false
contains k (x ∷ s) = x == k || contains k s

unfoldable pub add : String → List String → List String
unfolding contains
add k s = if contains k s then s else s ++ k ∷ []

unfoldable pub remove : String → List String → List String
remove k [] = []
remove k (x ∷ s) = let rest = remove k s in if x == k then rest else x ∷ rest

contains-append :
    (j : String) (s t : List String) → contains j (s ++ t) ≡ (contains j s || contains j t)
unfolding contains
contains-append j [] t = refl
contains-append j (x ∷ s) t = ground (arith, contains-append j s t)

pub contains-add :
    (k j : String) (s : List String) → contains j (add k s) ≡ (k == j || contains j s)
unfolding contains add
contains-add k j s = ground (arith, contains-append j s (k ∷ []), eq_iff k j)

pub contains-remove :
    (k j : String) (s : List String)
    → contains j (remove k s) ≡ (if k == j then false else contains j s)
unfolding contains remove
contains-remove k j [] = ground arith
contains-remove k j (x ∷ s) =
    ground (arith, eq_iff k j, eq_iff x k, eq_iff x j, contains-remove k j s)
