-- ===== src/Transcript/Entries.antt =====
-- What every operation keeps of a session: the bounds, the order and the numbers of its entries.
use a_meet.Prelude.{
  ℕ, suc, ◌+◌, ◌-◌, ◌≤◌, String, ◌==◌, ◌≡◌, refl, subst, ◌&&◌, ◌||◌, List, [], ◌∷◌, ◌++◌, arith,
  length, ltb, nat_beq, length-append, length-drop, Bool-cases, inl, inr,
}
use a_meet.Prelude.Maps.{contains, add}
use a_meet.Prelude.Text.{is_empty}
use a_meet.Types.{AuthUser}
use a_meet.Transcript.{
  Entry, Session, Segment, create_session, start_session, stop_session, cap_entries, cap_ids,
  new_entry, append_session, normalize, segment_id, revise, revise_entries,
}

-- The entries carry the numbers from the given one on, and the room's name.
abbrev pub Numbered : String → ℕ → List Entry → Type 0
Numbered room_id n [] = Unit
Numbered room_id n (e ∷ entries) =
    (e.room ≡ room_id) × (e.sequence ≡ n) × Numbered room_id (suc n) entries

-- At most 5000 entries, which carry the last numbers given out in their order, and at most 10000
-- ids.
pub record IsValid (room_id : String) (s : Session) : Type 0 where
  pub start : ℕ
  pub numbers : Numbered room_id start s.entries
  pub next : start + length s.entries ≡ s.next_sequence
  pub few : length s.entries ≤ 5000
  pub ids : length s.seen_segment_ids ≤ 10000

Numbered-append :
    (room_id : String) (n : ℕ) (entries : List Entry) (e : Entry)
    → Numbered room_id n entries
    → e.room ≡ room_id
    → e.sequence ≡ n + length entries
    → Numbered room_id n (entries ++ e ∷ [])
Numbered-append room_id n [] e h same k = (same, ground arith, tt)
Numbered-append room_id n (x ∷ entries) e h same k =
    (h.0, h.1, Numbered-append room_id (suc n) entries e h.2 same (ground arith))

cap_entries-Numbered :
    (room_id : String) (n : ℕ) (entries : List Entry)
    → Numbered room_id n entries
    → length entries ≤ 5001
    → (m : ℕ) × Numbered room_id m (cap_entries entries)
      × (m + length (cap_entries entries) ≡ n + length entries)
      × (length (cap_entries entries) ≤ 5000)
unfolding cap_entries
cap_entries-Numbered room_id n [] h k = (n, tt, refl, ground arith)
cap_entries-Numbered room_id n (e ∷ entries) h k =
    elim (Bool-cases (ltb 5000 (length (e ∷ entries)))) [
      | inl t ↦ (suc n, rw t h.2, ground arith, ground arith)
      | inr f ↦ (n, rw f h, ground arith, ground arith)
    ]

length-cap_ids : (ids : List String) → length ids ≤ 10001 → length (cap_ids ids) ≤ 10000
unfolding cap_ids
length-cap_ids ids h = ground (arith, length-drop (length ids - 5000) ids)

length-add : (k : String) (ids : List String) → length (add k ids) ≤ suc (length ids)
unfolding add
length-add k ids = ground (arith, length-append ids (k ∷ []))

revise_entries-Numbered :
    (room_id id_room : String) (n sequence : ℕ) (text provider : String) (now : ℕ)
    (entries : List Entry)
    → Numbered room_id n entries
    → Numbered room_id n (revise_entries id_room sequence (revise text provider now) entries).0
      × (length (revise_entries id_room sequence (revise text provider now) entries).0
          ≡ length entries)
unfolding revise_entries
revise_entries-Numbered room_id id_room n sequence text provider now [] h = (tt, refl)
revise_entries-Numbered room_id id_room n sequence text provider now (e ∷ entries) h =
    let k =
      revise_entries-Numbered room_id id_room (suc n) sequence text provider now entries h.2 in
    elim (Bool-cases (e.room == id_room && nat_beq e.sequence sequence)) [
      | inl t ↦ rw t ((h.0, h.1, h.2), refl)
      | inr f ↦ rw f ((h.0, h.1, k.0), ground (arith, k.1))
    ]

-- What is done to a session.
pub data Operation : Type 0 where
  start_by : AuthUser → ℕ → Operation
  stop_at : ℕ → Operation
  append : AuthUser → Segment → ℕ → Operation
  revise_at : String → ℕ → String → String → ℕ → Operation

abbrev pub apply : String → Operation → Session → Session
apply room_id (start_by user now) s = start_session user now s
apply room_id (stop_at now) s = stop_session now s
apply room_id (append user p now) s = (append_session room_id user p now s).0
apply room_id (revise_at id_room sequence text provider now) s = record s {
  entries = (revise_entries id_room sequence (revise text provider now) s.entries).0;
}

abbrev pub run : String → List Operation → Session → Session
run room_id [] s = s
run room_id (o ∷ ops) s = run room_id ops (apply room_id o s)

appended-IsValid :
    (room_id : String) (user : AuthUser) (p : Segment) (now : ℕ) (s : Session)
    → IsValid room_id s
    → IsValid room_id (record s {
      next_sequence = suc s.next_sequence;
      entries = cap_entries (s.entries ++ new_entry room_id user p now s ∷ []);
      seen_segment_ids = cap_ids (add (segment_id p) s.seen_segment_ids);
    })
unfolding new_entry
appended-IsValid room_id user p now s h =
    let entry = new_entry room_id user p now s in
    let grown = length-append s.entries (entry ∷ []) in
    let numbered =
      Numbered-append room_id h.start s.entries entry h.numbers refl (ground (arith, h.next)) in
    let (m, numbers, next, few) =
      cap_entries-Numbered room_id h.start _ numbered (ground (arith, grown, h.few)) in
    record {
      start = m;
      numbers = numbers;
      next = ground (arith, next, grown, h.next);
      few = few;
      ids = length-cap_ids _ (ground (arith, length-add (segment_id p) s.seen_segment_ids, h.ids));
    }

append-IsValid :
    (room_id : String) (user : AuthUser) (p : Segment) (now : ℕ) (s : Session)
    → IsValid room_id s
    → IsValid room_id (append_session room_id user p now s).0
unfolding append_session
append-IsValid room_id user p now s h = elim (Bool-cases s.active) [
  | inr f ↦ subst (IsValid room_id) (ground (arith, f)) h
  | inl t ↦ elim (Bool-cases (is_empty (normalize p.text) || is_empty (segment_id p))) [
    | inl bad ↦ subst (IsValid room_id) (ground (arith, t, bad)) h
    | inr good ↦ elim (Bool-cases (contains (segment_id p) s.seen_segment_ids)) [
      | inl seen ↦ subst (IsValid room_id) (ground (arith, t, good, seen)) h
      | inr fresh ↦
          subst (IsValid room_id) (ground (arith, t, good, fresh))
            (appended-IsValid room_id user p now s h)
    ]
  ]
]

apply-IsValid :
    (room_id : String) (o : Operation) (s : Session)
    → IsValid room_id s
    → IsValid room_id (apply room_id o s)
apply-IsValid room_id (start_by user now) s h = record {
  start = h.start;
  numbers = h.numbers;
  next = h.next;
  few = h.few;
  ids = h.ids;
}
apply-IsValid room_id (stop_at now) s h = record {
  start = h.start;
  numbers = h.numbers;
  next = h.next;
  few = h.few;
  ids = h.ids;
}
apply-IsValid room_id (append user p now) s h = append-IsValid room_id user p now s h
apply-IsValid room_id (revise_at id_room sequence text provider now) s h =
    let k =
      revise_entries-Numbered room_id id_room h.start sequence text provider now s.entries
        h.numbers in
    record {
      start = h.start;
      numbers = k.0;
      next = ground (arith, k.1, h.next);
      few = ground (arith, k.1, h.few);
      ids = h.ids;
    }

run-IsValid_from :
    (room_id : String) (ops : List Operation) (s : Session)
    → IsValid room_id s
    → IsValid room_id (run room_id ops s)
run-IsValid_from room_id [] s h = h
run-IsValid_from room_id (o ∷ ops) s h =
    run-IsValid_from room_id ops (apply room_id o s) (apply-IsValid room_id o s h)

-- Whatever is done to a new session, it stays valid: its entries are at most 5000 and carry, in
-- their order, the last of the numbers that were given out, each once; its ids are at most 10000.
pub run-IsValid :
    (room_id : String) (ops : List Operation) → IsValid room_id (run room_id ops create_session)
run-IsValid room_id ops =
    run-IsValid_from room_id ops create_session
      (record { start = 1; numbers = tt; next = refl; few = ground arith; ids = ground arith })
