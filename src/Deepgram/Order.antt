-- ===== src/Deepgram/Order.antt =====
-- What the provider is sent, and in which order.
use a_meet.Prelude.{
  ℕ, zero, suc, ◌-◌, ◌≤◌, ◌≡◌, refl, ap, sym, ◌∙◌, Bool, true, false, not, ◌&&◌, List, [], ◌∷◌,
  ◌++◌, map, arith, if◌then◌else◌, length, take, ltb, nat_beq, select, length-append, Bool-cases,
  inl, inr,
}
use mathlib.Core.List.{append-nil, append_assoc}
use a_meet.Deepgram.{Chunk, Session, Output, send_media, on_open, record_chunk, pass_on, send}

-- The chunks that the provider's connection is given.
abbrev pub sent : List Output → List Chunk
sent [] = []
sent ((send_media c) ∷ outs) = c ∷ sent outs
sent (o ∷ outs) = sent outs

abbrev pub send_all : List Chunk → Session → Session × List Output
send_all [] s = (s, [])
send_all (c ∷ chunks) s =
    ((send_all chunks (send c s).0).0, (send c s).1 ++ (send_all chunks (send c s).0).1)

abbrev pub has_bytes : Chunk → Bool
has_bytes c = not (nat_beq (length c) 0)

sent-append : (xs ys : List Output) → sent (xs ++ ys) ≡ sent xs ++ sent ys
sent-append [] ys = refl
sent-append (x ∷ xs) ys = ground (arith, sent-append xs ys)

-- Not yet open, or open.
abbrev pub IsWaiting : Session → Type 0
IsWaiting s = (s.connection ≡ true) × (s.connected ≡ false) × (s.stopping ≡ false)

abbrev pub IsOpen : Session → Type 0
IsOpen s = (s.connection ≡ true) × (s.connected ≡ true) × (s.stopping ≡ false)

send-flags :
    (c : Chunk) (s : Session)
    → ((send c s).0.connection ≡ s.connection)
      × ((send c s).0.connected ≡ s.connected)
      × ((send c s).0.stopping ≡ s.stopping)
unfolding send pass_on record_chunk
send-flags c s = ground arith

send-waiting :
    (c : Chunk) (s : Session)
    → IsWaiting s
    → (sent (send c s).1 ≡ [])
      × ((send c s).0.connect_buffer ≡ (
          if has_bytes c && ltb (length s.connect_buffer) 100
          then s.connect_buffer ++ c ∷ []
          else s.connect_buffer))
unfolding send pass_on record_chunk
send-waiting c s w = (ground arith, ground arith)

send-open :
    (c : Chunk) (s : Session) → IsOpen s → sent (send c s).1 ≡ (if has_bytes c then c ∷ [] else [])
unfolding send pass_on record_chunk
send-open c s w = ground arith

take-nil : (n : ℕ) → take {A = Chunk} n [] ≡ []
take-nil zero = refl
take-nil (suc n) = refl

take_of_eq : (n m : ℕ) (c : Chunk) (cs : List Chunk) → n ≡ suc m → take n (c ∷ cs) ≡ c ∷ take m cs
take_of_eq zero m c cs e = absurd (omega arith)
take_of_eq (suc n) m c cs e = ground (arith, e)

take_of_zero : (n : ℕ) (cs : List Chunk) → n ≡ 0 → take n cs ≡ []
take_of_zero zero cs e = refl
take_of_zero (suc n) cs e = absurd (omega arith)

-- A chunk joins the buffer while there is room.
abbrev buffered : Chunk → List Chunk → List Chunk
buffered c buffer = if ltb (length buffer) 100 then buffer ++ c ∷ [] else buffer

buffered-take :
    (c : Chunk) (buffer chunks : List Chunk)
    → length buffer ≤ 100
    → buffered c buffer ++ take (100 - length (buffered c buffer)) chunks
      ≡ buffer ++ take (100 - length buffer) (c ∷ chunks)
buffered-take c buffer chunks few = elim (Bool-cases (ltb (length buffer) 100)) [
  | inl room ↦ rw room (
      append_assoc buffer (c ∷ []) (take (100 - length (buffer ++ c ∷ [])) chunks)
      ∙ ap (λ l. buffer ++ l)
          (sym (
            take_of_eq (100 - length buffer) (100 - length (buffer ++ c ∷ [])) c chunks
              (ground (arith, room, length-append buffer (c ∷ []))))))
  | inr full ↦
      let none_left : 100 - length buffer ≡ 0 = ground (arith, full) in
      rw full (
        ap (λ l. buffer ++ l)
          (take_of_zero _ chunks none_left ∙ sym (take_of_zero _ (c ∷ chunks) none_left)))
]

send_all-IsWaiting :
    (chunks : List Chunk) (s : Session)
    → IsWaiting s
    → length s.connect_buffer ≤ 100
    → (sent (send_all chunks s).1 ≡ [])
      × IsWaiting (send_all chunks s).0
      × ((send_all chunks s).0.connect_buffer
          ≡ s.connect_buffer ++ take (100 - length s.connect_buffer) (select has_bytes chunks))
send_all-IsWaiting [] s w few =
    (refl, w, ground (arith, take-nil (100 - length s.connect_buffer), append-nil s.connect_buffer))
send_all-IsWaiting (c ∷ chunks) s w few =
    let step = send-waiting c s w in
    let flags = send-flags c s in
    let more : IsWaiting (send c s).0 = ground (arith, flags) in
    let room : length (send c s).0.connect_buffer ≤ 100 =
      ground (arith, step, length-append s.connect_buffer (c ∷ [])) in
    let rest = send_all-IsWaiting chunks (send c s).0 more room in
    (
      ground (arith, step, rest, sent-append (send c s).1 (send_all chunks (send c s).0).1),
      rest.1,
      elim (Bool-cases (has_bytes c)) [
        | inl some_bytes ↦ ground (
          arith,
          some_bytes,
          step,
          rest,
          buffered-take c s.connect_buffer (select has_bytes chunks) few,
        )
        | inr empty ↦ ground (arith, empty, step, rest)
      ],
    )

send_all-open :
    (chunks : List Chunk) (s : Session)
    → IsOpen s
    → sent (send_all chunks s).1 ≡ select has_bytes chunks
send_all-open [] s w = refl
send_all-open (c ∷ chunks) s w = ground (
  arith,
  send-flags c s,
  send-open c s w,
  sent-append (send c s).1 (send_all chunks (send c s).0).1,
  send_all-open chunks (send c s).0,
)

sent-send_media : (chunks : List Chunk) → sent (map send_media chunks) ≡ chunks
sent-send_media [] = refl
sent-send_media (c ∷ chunks) = ap (λ l. c ∷ l) (sent-send_media chunks)

on_open-sent :
    (s : Session) → IsWaiting s → (sent (on_open s).1 ≡ s.connect_buffer) × IsOpen (on_open s).0
unfolding on_open
on_open-sent s w = (ground (arith, sent-send_media s.connect_buffer), ground arith)

-- A session whose connection is not open yet is given chunks, the connection opens, and it is given
-- more: the provider gets nothing before, then the first 100 of the earlier chunks, and then all the
-- later ones, each in the order in which it came; empty chunks are left out.
pub send_all-order :
    (before after : List Chunk) (s : Session)
    → IsWaiting s
    → s.connect_buffer ≡ []
    → let b = send_all before s in
      let o = on_open b.0 in
      let a = send_all after o.0 in
      (sent b.1 ≡ [])
      × (sent o.1 ≡ take 100 (select has_bytes before))
      × (sent a.1 ≡ select has_bytes after)
send_all-order before after s w fresh =
    let b = send_all-IsWaiting before s w (ground (arith, fresh)) in
    let held : (send_all before s).0.connect_buffer ≡ take 100 (select has_bytes before) =
      b.2 ∙ ap (λ l. l ++ take (100 - length l) (select has_bytes before)) fresh in
    let opened = on_open-sent (send_all before s).0 b.1 in
    (b.0, opened.0 ∙ held, send_all-open after (on_open (send_all before s).0).0 opened.1)
