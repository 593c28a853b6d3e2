-- ===== src/Contributors/Window.antt =====
-- How much audio of one contributor is sent on.
use a_meet.Prelude.{
  ℕ, ◌+◌, ◌-◌, ◌*◌, ◌≤◌, min, List, [], ◌∷◌, arith, if◌then◌else◌, ltb, leb, Bool-cases, inl, inr,
}
use a_meet.Contributors.{Active, send_at}

-- Chunks, each with its time and its bytes.
abbrev pub sent_bytes : List (ℕ × ℕ) → Active → ℕ
sent_bytes [] a = 0
sent_bytes ((now, bytes) ∷ chunks) a =
    let rest = sent_bytes chunks (send_at now bytes a).0 in
    if (send_at now bytes a).1 then bytes + rest else rest

abbrev pub last_time : ℕ → List (ℕ × ℕ) → ℕ
last_time now [] = now
last_time now ((t, bytes) ∷ chunks) = last_time t chunks

-- Time does not run backwards.
abbrev pub IsOrdered : ℕ → List (ℕ × ℕ) → Type 0
IsOrdered now [] = Unit
IsOrdered now ((t, bytes) ∷ chunks) = (now ≤ t) × IsOrdered t chunks

last_time-le : (now : ℕ) (chunks : List (ℕ × ℕ)) → IsOrdered now chunks → now ≤ last_time now chunks
last_time-le now [] h = omega arith
last_time-le now ((t, bytes) ∷ chunks) h = omega (arith, h.0, last_time-le t chunks h.1)

-- The bytes that the window has counted take their part of the bound.
sent_bytes-window :
    (now : ℕ) (chunks : List (ℕ × ℕ)) (a : Active)
    → a.window_started_at ≤ now
    → IsOrdered now chunks
    → 1000 * sent_bytes chunks a + 1000 * min a.window_bytes 98304
      ≤ 98304 * (1000 + (last_time now chunks - a.window_started_at))
unfolding send_at
sent_bytes-window now [] a started order = omega arith
sent_bytes-window now ((t, bytes) ∷ chunks) a started order =
    let last = last_time-le t chunks order.1 in
    elim (Bool-cases (ltb 65536 bytes)) [
      | inl large ↦
          ground
            (arith, large, sent_bytes-window t chunks a (omega (arith, started, order.0)) order.1)
      | inr small ↦ elim (Bool-cases (leb (a.window_started_at + 1000) t)) [
        | inl late ↦
            let b : Active = record a { window_started_at = t; window_bytes = 0 + bytes } in
            ground (arith, small, late, last, sent_bytes-window t chunks b (omega arith) order.1)
        | inr soon ↦
            let b : Active = record a { window_bytes = a.window_bytes + bytes } in
            ground (
              arith,
              small,
              soon,
              last,
              sent_bytes-window t chunks b (omega (arith, started, order.0)) order.1,
            )
      ]
    ]

-- Whatever chunks arrive from now on, in the order of their times: what is sent on of them is at most
-- 96 KiB for each second since the window began, and the 96 KiB of that window.
pub send_at-rate :
    (now : ℕ) (chunks : List (ℕ × ℕ)) (a : Active)
    → a.window_started_at ≤ now
    → IsOrdered now chunks
    → 1000 * sent_bytes chunks a ≤ 98304 * (1000 + (last_time now chunks - a.window_started_at))
send_at-rate now chunks a started order =
    omega (arith, sent_bytes-window now chunks a started order)
