-- ===== src/Transcript/Retries.antt =====
-- A segment's id is remembered while fewer than 5000 others follow it.
use a_meet.Prelude.{
  ℕ, suc, ◌+◌, ◌-◌, ◌≤◌, ◌<◌, String, eq_refl, ◌≡◌, refl, sym, subst, ap, ◌∙◌, true, false, ◌||◌,
  List, [], ◌∷◌, ◌++◌, arith, length, drop, ltb, length-append, Bool-cases, inl, inr,
}
use a_meet.Prelude.Maps.{contains, add}
use a_meet.Prelude.Text.{is_empty}
use a_meet.Types.{AuthUser}
use a_meet.Transcript.{
  Session, Segment, duplicate, appended, Entry, cap_ids, append_session, normalize, segment_id,
}

-- The id is in the list, and at most this many stand after it.
abbrev pub Within : ℕ → String → List String → Type 0
Within n x ids =
    (before : List String) × (after : List String) × (ids ≡ before ++ x ∷ after)
    × (length after ≤ n)

contains-Within :
    (n : ℕ) (x : String) (before after : List String) → contains x (before ++ x ∷ after) ≡ true
unfolding contains
contains-Within n x [] after = ground (arith, eq_refl x)
contains-Within n x (y ∷ before) after = ground (arith, contains-Within n x before after)

append_assoc : (xs ys zs : List String) → (xs ++ ys) ++ zs ≡ xs ++ (ys ++ zs)
append_assoc [] ys zs = refl
append_assoc (x ∷ xs) ys zs = ap (λ l. x ∷ l) (append_assoc xs ys zs)

drop-append : (n : ℕ) (xs ys : List String) → n ≤ length xs → drop n (xs ++ ys) ≡ drop n xs ++ ys
drop-append ℕ.zero xs ys h = refl
drop-append (ℕ.suc n) [] ys h = absurd (ground arith)
drop-append (ℕ.suc n) (x ∷ xs) ys h = drop-append n xs ys (ground arith)

Within-cap_ids :
    (n : ℕ) (x : String) (ids : List String) → n < 5000 → Within n x ids → Within n x (cap_ids ids)
unfolding cap_ids
Within-cap_ids n x ids h w = elim (Bool-cases (ltb 10000 (length ids))) [
  | inr f ↦ rw f w
  | inl t ↦
      let (before, after, e, few) = w in
      rw t (
        drop (length ids - 5000) before,
        after,
        ap (drop (length ids - 5000)) e
            ∙ drop-append (length ids - 5000) before (x ∷ after)
                (ground (arith, e, few, length-append before (x ∷ after))),
        few,
      )
]

Within-add :
    (n : ℕ) (x y : String) (ids : List String) → Within n x ids → Within (suc n) x (add y ids)
unfolding add
Within-add n x y ids (before, after, e, few) = elim (Bool-cases (contains y ids)) [
  | inl t ↦ rw t (before, after, e, ground arith)
  | inr f ↦ rw f (
    before,
    after ++ y ∷ [],
    ap (λ l. l ++ y ∷ []) e ∙ append_assoc before (x ∷ after) (y ∷ []),
    ground (arith, length-append after (y ∷ [])),
  )
]

Within-suc : (n : ℕ) (x : String) (ids : List String) → Within n x ids → Within (suc n) x ids
Within-suc n x ids (before, after, e, few) = (before, after, e, ground arith)

-- One delivery of a segment.
abbrev pub Delivery : Type 0
Delivery = AuthUser × Segment × ℕ

abbrev pub deliver : String → List Delivery → Session → Session
deliver room_id [] s = s
deliver room_id ((user, p, now) ∷ rest) s =
    deliver room_id rest (append_session room_id user p now s).0

Within-append_session :
    (n : ℕ) (x room_id : String) (user : AuthUser) (p : Segment) (now : ℕ) (s : Session)
    → suc n < 5000
    → Within n x s.seen_segment_ids
    → Within (suc n) x (append_session room_id user p now s).0.seen_segment_ids
unfolding append_session
Within-append_session n x room_id user p now s h w =
    let kept = Within-suc n x s.seen_segment_ids w in
    let taken = Within-cap_ids (suc n) x _ h (Within-add n x (segment_id p) s.seen_segment_ids w) in
    elim (Bool-cases s.active) [
      | inr f ↦ subst (Within (suc n) x) (ground (arith, f)) kept
      | inl t ↦ elim (Bool-cases (is_empty (normalize p.text) || is_empty (segment_id p))) [
        | inl bad ↦ subst (Within (suc n) x) (ground (arith, t, bad)) kept
        | inr good ↦ elim (Bool-cases (contains (segment_id p) s.seen_segment_ids)) [
          | inl seen ↦ subst (Within (suc n) x) (ground (arith, t, good, seen)) kept
          | inr fresh ↦ subst (Within (suc n) x) (ground (arith, t, good, fresh)) taken
        ]
      ]
    ]

Within-deliver :
    (n : ℕ) (x room_id : String) (rest : List Delivery) (s : Session)
    → n + length rest < 5000
    → Within n x s.seen_segment_ids
    → (m : ℕ) × Within m x (deliver room_id rest s).seen_segment_ids
Within-deliver n x room_id [] s h w = (n, w)
Within-deliver n x room_id ((user, p, now) ∷ rest) s h w =
    Within-deliver (suc n) x room_id rest (append_session room_id user p now s).0 (ground arith)
      (Within-append_session n x room_id user p now s (ground arith) w)

-- What an append that is taken has established.
appended-checks :
    (room_id : String) (user : AuthUser) (p : Segment) (now : ℕ) (e : Entry) (s : Session)
    → (append_session room_id user p now s).1 ≡ appended e
    → (s.active ≡ true)
      × (is_empty (normalize p.text) ≡ false)
      × (is_empty (segment_id p) ≡ false)
      × ((append_session room_id user p now s).0.seen_segment_ids
          ≡ cap_ids (s.seen_segment_ids ++ segment_id p ∷ []))
unfolding append_session add
appended-checks room_id user p now e s h = elim (Bool-cases s.active) [
  | inr f ↦ ground (arith, f)
  | inl t ↦ elim (Bool-cases (is_empty (normalize p.text))) [
    | inl bad ↦ ground (arith, t, bad)
    | inr good ↦ elim (Bool-cases (is_empty (segment_id p))) [
      | inl bad ↦ ground (arith, t, bad, good)
      | inr named ↦ elim (Bool-cases (contains (segment_id p) s.seen_segment_ids)) [
        | inl seen ↦ ground (arith, t, good, named, seen)
        | inr fresh ↦ ground (arith, t, good, named, fresh)
      ]
    ]
  ]
]

Within-appended :
    (room_id : String) (user : AuthUser) (p : Segment) (now : ℕ) (e : Entry) (s : Session)
    → (append_session room_id user p now s).1 ≡ appended e
    → Within 0 (segment_id p) (append_session room_id user p now s).0.seen_segment_ids
Within-appended room_id user p now e s h =
    let ids = s.seen_segment_ids ++ segment_id p ∷ [] in
    subst (Within 0 (segment_id p)) (sym (appended-checks room_id user p now e s h).3) (
      Within-cap_ids 0 (segment_id p) ids (ground arith)
        (s.seen_segment_ids, [], refl, ground arith))

append_session-active :
    (room_id : String) (user : AuthUser) (p : Segment) (now : ℕ) (s : Session)
    → (append_session room_id user p now s).0.active ≡ s.active
unfolding append_session
append_session-active room_id user p now s = ground arith

deliver-active :
    (room_id : String) (rest : List Delivery) (s : Session)
    → (deliver room_id rest s).active ≡ s.active
deliver-active room_id [] s = refl
deliver-active room_id ((user, p, now) ∷ rest) s =
    deliver-active room_id rest (append_session room_id user p now s).0
    ∙ append_session-active room_id user p now s

contains-Within_ids :
    (n : ℕ) (x : String) (ids : List String) → Within n x ids → contains x ids ≡ true
contains-Within_ids n x ids (before, after, e, few) =
    ap (contains x) e ∙ contains-Within n x before after

append_session-duplicate :
    (room_id : String) (user : AuthUser) (p : Segment) (now : ℕ) (s : Session)
    → s.active ≡ true
    → is_empty (normalize p.text) ≡ false
    → is_empty (segment_id p) ≡ false
    → contains (segment_id p) s.seen_segment_ids ≡ true
    → append_session room_id user p now s ≡ (s, duplicate)
unfolding append_session
append_session-duplicate room_id user p now s a t i c = ground (arith, a, t, i, c)

-- A segment that was taken is answered as a duplicate when it is delivered again, by any user and at
-- any time, and changes nothing, if fewer than 5000 other deliveries to the meeting stand between.
pub append_session-retried :
    (room_id : String) (user : AuthUser) (p : Segment) (now : ℕ) (e : Entry) (s : Session)
    (rest : List Delivery) (again : AuthUser) (later : ℕ)
    → (append_session room_id user p now s).1 ≡ appended e
    → length rest < 5000
    → append_session room_id again p later
        (deliver room_id rest (append_session room_id user p now s).0)
      ≡ (deliver room_id rest (append_session room_id user p now s).0, duplicate)
append_session-retried room_id user p now e s rest again later h few =
    let checks = appended-checks room_id user p now e s h in
    let t = (append_session room_id user p now s).0 in
    let (m, w) =
      Within-deliver 0 (segment_id p) room_id rest t (ground (arith, few))
        (Within-appended room_id user p now e s h) in
    append_session-duplicate room_id again p later (deliver room_id rest t)
      (deliver-active room_id rest t ∙ append_session-active room_id user p now s ∙ checks.0)
      checks.1 checks.2
      (contains-Within_ids m (segment_id p) (deliver room_id rest t).seen_segment_ids w)
