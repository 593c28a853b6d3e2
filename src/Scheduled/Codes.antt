-- ===== src/Scheduled/Codes.antt =====
-- Which code a new room gets.
use a_meet.Prelude.{
  ℕ, zero, suc, ◌+◌, ◌<◌, String, ◌≡◌, subst, ap, ◌∙◌, sym, Bool, true, false, arith, if◌then◌else◌,
}
use a_meet.Scheduled.{
  MeetingDoc, Created, taken, created, made, create_attempts, create_unique_room,
}

-- A database that refuses just the codes it has.
abbrev pub creating : (String → Bool) → (String → MeetingDoc) → String → Created
creating is_taken doc code = if is_taken code then taken else created (doc code)

create_attempts-made :
    (is_taken : String → Bool) (doc : String → MeetingDoc) (code : ℕ → String) (attempt left n : ℕ)
    → n < left
    → ((i : ℕ) → i < n → is_taken (code (attempt + i)) ≡ true)
    → is_taken (code (attempt + n)) ≡ false
    → create_attempts (creating is_taken doc) code attempt left ≡ made (doc (code (attempt + n)))
unfolding create_attempts
create_attempts-made is_taken doc code attempt zero n few before free = absurd (ground arith)
create_attempts-made is_taken doc code attempt (suc left) zero few before free =
    let same : attempt + 0 ≡ attempt = ground arith in
    let free_here = subst (λ a. is_taken (code a) ≡ false) same free in
    ground (arith, free_here, same)
create_attempts-made is_taken doc code attempt (suc left) (suc n) few before free =
    let shift : (i : ℕ) → attempt + suc i ≡ suc attempt + i = λ i. ground arith in
    let here : attempt + 0 ≡ attempt = ground arith in
    let first = subst (λ a. is_taken (code a) ≡ true) here (before 0 (ground arith)) in
    let rest =
      create_attempts-made is_taken doc code (suc attempt) left n (ground arith)
        (λ i h. subst (λ a. is_taken (code a) ≡ true) (shift i) (before (suc i) (ground arith)))
        (subst (λ a. is_taken (code a) ≡ false) (shift n) free) in
    ground (arith, first, rest, ap (λ a. made (doc (code a))) (shift n))

-- A room gets the first free one of five codes, where the database refuses just the codes that are
-- taken.
pub create_unique_room-made :
    (is_taken : String → Bool) (doc : String → MeetingDoc) (code : ℕ → String) (n : ℕ)
    → n < 5
    → ((i : ℕ) → i < n → is_taken (code i) ≡ true)
    → is_taken (code n) ≡ false
    → create_unique_room (creating is_taken doc) code ≡ made (doc (code n))
unfolding create_unique_room
create_unique_room-made is_taken doc code n few before free =
    let same : (i : ℕ) → 0 + i ≡ i = λ i. ground arith in
    create_attempts-made is_taken doc code 0 5 n few
      (λ i h. subst (λ a. is_taken (code a) ≡ true) (sym (same i)) (before i h))
      (subst (λ a. is_taken (code a) ≡ false) (sym (same n)) free)
    ∙ ap (λ a. made (doc (code a))) (same n)
