-- ===== src/Client/Log/Merge.antt =====
-- The merged transcript of client/src/utils/transcript.ts: in order, and one entry for each id.
use a_meet.Client.Log.{Entry, by_id, put_all, insert, sort, merge_transcript_entries}
use a_meet.Prelude.{
  ℕ, suc, String, ◌==◌, eq_iff, true, false, not, ◌&&◌, Option, none, some, List, [], ◌∷◌, leb,
  is_some, if◌then◌else◌, ◌≡◌, ◌∙◌, ◌↔◌, ◌⊎◌, ◌≤◌, refl, sym, ap, subst, All, In, In-map, arith,
  Bool-cases, inl, inr,
}
use a_meet.Prelude.Maps.{get, set, values, get-set, In-get, All-set, Unique, set-Unique}
use a_meet.Prelude.Text.{is_empty}

abbrev pub IsSorted : List Entry → Type 0
IsSorted [] = Unit
IsSorted (e ∷ es) = All (λ x. e.sequence ≤ x.sequence) es × IsSorted es

All-insert :
    (P : Entry → Type 0) (e : Entry) (es : List Entry) → P e → All P es → All P (insert e es)
unfolding insert
All-insert P e [] p h = (p, tt)
All-insert P e (x ∷ xs) p (q, h) = elim (Bool-cases (leb e.sequence x.sequence)) [
  | inl l ↦ rw l (p, (q, h))
  | inr g ↦ rw g (q, All-insert P e xs p h)
]

below-All :
    (e x : Entry) (xs : List Entry)
    → e.sequence ≤ x.sequence
    → All (λ y. x.sequence ≤ y.sequence) xs
    → All (λ y. e.sequence ≤ y.sequence) xs
below-All e x [] l h = tt
below-All e x (y ∷ ys) l (p, h) = (ground arith, below-All e x ys l h)

insert-IsSorted : (e : Entry) (es : List Entry) → IsSorted es → IsSorted (insert e es)
unfolding insert
insert-IsSorted e [] h = (tt, tt)
insert-IsSorted e (x ∷ xs) (a, h) = elim (Bool-cases (leb e.sequence x.sequence)) [
  | inl l ↦ rw l ((ground arith, below-All e x xs (ground arith) a), (a, h))
  | inr g ↦
      rw g (All-insert (λ y. x.sequence ≤ y.sequence) e xs (ground arith) a, insert-IsSorted e xs h)
]

sort-IsSorted : (es : List Entry) → IsSorted (sort es)
unfolding sort
sort-IsSorted [] = tt
sort-IsSorted (e ∷ es) = insert-IsSorted e (sort es) (sort-IsSorted es)

put_first :
    (e y : Entry) (ys : List Entry)
    → leb e.sequence y.sequence ≡ true
    → insert e (y ∷ ys) ≡ e ∷ y ∷ ys
unfolding insert
put_first e y ys l = rw l refl

put_later :
    (e y : Entry) (ys : List Entry)
    → leb e.sequence y.sequence ≡ false
    → insert e (y ∷ ys) ≡ y ∷ insert e ys
unfolding insert
put_later e y ys g = rw g refl

insert_cases : (x e : Entry) (es : List Entry) → In x (insert e es) → (e ≡ x) ⊎ In x es
unfolding insert
insert_cases x e [] h = h
insert_cases x e (y ∷ ys) h = elim (Bool-cases (leb e.sequence y.sequence)) [
  | inl l ↦ subst (In x) (put_first e y ys l) h
  | inr g ↦ elim (subst (In x) (put_later e y ys g) h) [
    | inl p ↦ inr (inl p)
    | inr k ↦ elim (insert_cases x e ys k) [ inl p ↦ inl p | inr j ↦ inr (inr j) ]
  ]
]

insert_in : (x e : Entry) (es : List Entry) → (e ≡ x) ⊎ In x es → In x (insert e es)
unfolding insert
insert_in x e [] h = h
insert_in x e (y ∷ ys) h = elim (Bool-cases (leb e.sequence y.sequence)) [
  | inl l ↦ subst (In x) (sym (put_first e y ys l)) h
  | inr g ↦ subst (In x) (sym (put_later e y ys g)) (elim h [
    | inl p ↦ inr (insert_in x e ys (inl p))
    | inr (inl p) ↦ inl p
    | inr (inr k) ↦ inr (insert_in x e ys (inr k))
  ])
]

In-sort : (x : Entry) (es : List Entry) → (In x (sort es)) ↔ (In x es)
unfolding sort
In-sort x [] = ((λ h. h), (λ h. h))
In-sort x (e ∷ es) = (
  (λ h. elim (insert_cases x e (sort es) h) [ inl p ↦ inl p | inr k ↦ inr ((In-sort x es).0 k) ]),
  (elim [
    | inl p ↦ insert_in x e (sort es) (inl p)
    | inr k ↦ insert_in x e (sort es) (inr ((In-sort x es).1 k))
  ]),
)

-- The last of these entries with an id
abbrev pub last_of : String → List Entry → Option Entry
last_of k [] = none
last_of k (e ∷ es) =
    let rest = last_of k es in if is_some rest then rest else if e.id == k then some e else none

-- The entry that has come in last with an id, or else the participant's own
abbrev pub newest : String → List Entry → List Entry → Option Entry
newest k current incoming =
    if not (is_empty k) && is_some (last_of k incoming)
    then last_of k incoming
    else last_of k current

get-by_id :
    (k : String) (es : List Entry) (m : List (String × Entry))
    → get k (by_id es m) ≡ (if is_some (last_of k es) then last_of k es else get k m)
unfolding by_id
get-by_id k [] m = refl
get-by_id k (e ∷ es) m = ground (arith, get-by_id k es (set e.id e m), get-set e.id k e m)

get-put_all :
    (k : String) (es : List Entry) (m : List (String × Entry))
    → get k (put_all es m)
      ≡ (if not (is_empty k) && is_some (last_of k es) then last_of k es else get k m)
unfolding put_all
get-put_all k [] m = ground arith
get-put_all k (e ∷ es) m =
    ground (
      arith,
      get-put_all k es (set e.id e m),
      get-put_all k es m,
      get-set e.id k e m,
      eq_iff e.id k,
    )

-- Each entry stands under its id, once.
abbrev IsIndexed : List (String × Entry) → Type 0
IsIndexed m = All (λ x. x.1.id ≡ x.0) m × Unique m

set-IsIndexed : (e : Entry) (m : List (String × Entry)) → IsIndexed m → IsIndexed (set e.id e m)
set-IsIndexed e m v = (All-set (λ x. x.1.id ≡ x.0) e.id e m refl v.0, set-Unique e.id e m v.1)

by_id-IsIndexed :
    (es : List Entry) (m : List (String × Entry)) → IsIndexed m → IsIndexed (by_id es m)
unfolding by_id
by_id-IsIndexed [] m v = v
by_id-IsIndexed (e ∷ es) m v = by_id-IsIndexed es (set e.id e m) (set-IsIndexed e m v)

put_all-IsIndexed :
    (es : List Entry) (m : List (String × Entry)) → IsIndexed m → IsIndexed (put_all es m)
unfolding put_all
put_all-IsIndexed [] m v = v
put_all-IsIndexed (e ∷ es) m v = elim (Bool-cases (is_empty e.id)) [
  | inl n ↦ rw n (put_all-IsIndexed es m v)
  | inr n ↦ rw n (put_all-IsIndexed es (set e.id e m) (set-IsIndexed e m v))
]

value_got :
    (e : Entry) (m : List (String × Entry)) → IsIndexed m → In e (values m) → get e.id m ≡ some e
unfolding get
value_got e [] v h = elim h [ ]
value_got e ((k, x) ∷ m) ((i, a), u) (inl p) =
    let q : x.id ≡ e.id = ap (λ z. z.id) p in ground (arith, eq_iff k e.id)
value_got e ((k, x) ∷ m) ((i, a), (n, u)) (inr h) =
    let ih = value_got e m (a, u) h in ground (arith, eq_iff k e.id)

-- How often an entry with this id stands in a transcript
abbrev pub count : String → List Entry → ℕ
count k [] = 0
count k (e ∷ es) = let n = count k es in if e.id == k then suc n else n

count-insert : (k : String) (e : Entry) (es : List Entry) → count k (insert e es) ≡ count k (e ∷ es)
unfolding insert
count-insert k e [] = refl
count-insert k e (x ∷ xs) = ground (arith, count-insert k e xs)

count-sort : (k : String) (es : List Entry) → count k (sort es) ≡ count k es
unfolding sort
count-sort k [] = refl
count-sort k (e ∷ es) = ground (arith, count-sort k es, count-insert k e (sort es))

count-values :
    (k : String) (m : List (String × Entry))
    → IsIndexed m
    → count k (values m) ≡ (if is_some (get k m) then 1 else 0)
unfolding get
count-values k [] v = refl
count-values k ((j, e) ∷ m) ((i, is), (n, u)) =
    let ih = count-values k m (is, u) in ground (arith, eq_iff j k, eq_iff e.id k)

-- The merged transcript
pub record IsMerged (current incoming merged : List Entry) : Type 0 where
  pub ordered : IsSorted merged
  pub content : (e : Entry) → (In e merged) ↔ (newest e.id current incoming ≡ some e)
  pub once : (k : String) → count k merged ≡ (if is_some (newest k current incoming) then 1 else 0)

-- The merged transcript is in the order of the sequence numbers, and holds one entry, once, for each id
-- of the participant's own entries or of those that came in, where an entry that came in without an id
-- does not count: the one that came in last with the id, or else the last of the participant's own.
pub merge_transcript_entries-IsMerged :
    (current incoming : List Entry)
    → IsMerged current incoming (merge_transcript_entries current incoming)
unfolding merge_transcript_entries get
merge_transcript_entries-IsMerged current incoming =
    let m = put_all incoming (by_id current []) in
    let v = put_all-IsIndexed incoming (by_id current []) (by_id-IsIndexed current [] (tt, tt)) in
    let found : (k : String) → get k m ≡ newest k current incoming =
      λ k. ground (arith, get-put_all k incoming (by_id current []), get-by_id k current []) in
    record {
      ordered = sort-IsSorted (values m);
      content = λ e. (
        (λ h. sym (found e.id) ∙ value_got e m v ((In-sort e (values m)).0 h)),
        (λ h.
            (In-sort e (values m)).1
              (In-map (λ x. x.1) (e.id, e) m (In-get e.id e m (found e.id ∙ h)))),
      );
      once = λ k.
          count-sort k (values m)
          ∙ count-values k m v
          ∙ ap (λ o. if is_some o then 1 else 0) (found k);
    }
