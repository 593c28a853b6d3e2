-- ===== src/Refiner/Refine.antt =====
-- Which text a refinement ends with, whatever the services answer.
use a_meet.Prelude.{
  ℕ, ◌+◌, ◌*◌, ◌≤◌, max, String, ◌≡◌, refl, ap, ◌∙◌, Bool, true, false, not, ◌&&◌, arith, leb,
  Bool-cases, inl, inr, ◌⊎◌,
}
use a_meet.Prelude.Text.{is_empty, utf16_length}
use a_meet.Refiner.{
  Setting, Answer, fails, answers, Refined, unrefined, clean_transcript, should_merge, merge,
  refine,
}

-- The text of an answer.
abbrev pub heard : Setting → Answer → String
heard c fails = ""
heard c (answers text) = clean_transcript c text

no_text : (c : Setting) → is_empty (heard c fails) ≡ true
unfolding is_empty
no_text c = refl

-- Groq is asked: there is a client, and at least 0.45 seconds of audio.
abbrev pub is_asked : Setting → ℕ → Bool
is_asked c bytes = c.has_client && leb 14400 bytes

-- A merge of two texts that is due and has succeeded: with a text, and one not much longer than the
-- longer of the two.
pub record IsMerged (c : Setting) (m : Answer) (groq deepgram : String) : Type 0 where
  pub due : should_merge c groq deepgram ≡ true
  pub model : c.has_merge_model ≡ true
  pub written : is_empty (heard c m) ≡ false
  pub short :
      10 * utf16_length (heard c m) ≤ 16 * max (utf16_length groq) (utf16_length deepgram) + 300

-- Where Groq's text stands, it is the merge's instead just if the merge has succeeded.
merge-cases :
    (c : Setting) (m : Answer) (groq deepgram : String)
    → (IsMerged c m groq deepgram
        × (merge c m groq deepgram ≡ record { text = heard c m; provider = "deepgram+groq+merge" }))
      ⊎ ((IsMerged c m groq deepgram → ⊥)
          × (merge c m groq deepgram ≡ record { text = groq; provider = "deepgram+groq" }))
unfolding merge
merge-cases c fails groq deepgram =
    inr (λ h. absurd (ground (arith, no_text c, h.written)), ground arith)
merge-cases c (answers text) groq deepgram =
    elim (Bool-cases (should_merge c groq deepgram && c.has_merge_model)) [
      | inr off ↦ inr (λ h. absurd (ground (arith, off, h.due, h.model)), ground (arith, off))
      | inl due ↦
          elim (Bool-cases (
            not (is_empty (clean_transcript c text))
            && leb (10 * utf16_length (clean_transcript c text))
                (16 * max (utf16_length groq) (utf16_length deepgram) + 300))) [
                  | inl good ↦ inl (
                    record {
                      due = ground (arith, due);
                      model = ground (arith, due);
                      written = ground (arith, good);
                      short = ground (arith, good);
                    },
                    ground (arith, due, good),
                  )
                  | inr bad ↦ inr (
                    λ h. absurd (ground (arith, bad, h.written, h.short)),
                    ground (arith, due, bad),
                  )
                ]
    ]

-- How a refinement can end: with Deepgram's text, with the text of a merge, or with Groq's.
pub data Outcome (c : Setting) (bytes : ℕ) (deepgram : String) (t m : Answer) (r : Refined)
    : Type 0 where
  kept :
      (is_asked c bytes ≡ false) ⊎ (is_empty (heard c t) ≡ true)
      → r ≡ unrefined deepgram
      → Outcome c bytes deepgram t m r
  merged :
      is_asked c bytes ≡ true
      → is_empty (heard c t) ≡ false
      → IsMerged c m (heard c t) deepgram
      → r ≡ record { text = heard c m; provider = "deepgram+groq+merge" }
      → Outcome c bytes deepgram t m r
  heard_only :
      is_asked c bytes ≡ true
      → is_empty (heard c t) ≡ false
      → (IsMerged c m (heard c t) deepgram → ⊥)
      → r ≡ record { text = heard c t; provider = "deepgram+groq" }
      → Outcome c bytes deepgram t m r

refine-unasked :
    (c : Setting) (bytes : ℕ) (deepgram : String) (t m : Answer)
    → is_asked c bytes ≡ false
    → refine c bytes deepgram t m ≡ unrefined deepgram
unfolding refine
refine-unasked c bytes deepgram t m h = ground (arith, h)

refine-unheard :
    (c : Setting) (bytes : ℕ) (deepgram : String) (t m : Answer)
    → is_empty (heard c t) ≡ true
    → refine c bytes deepgram t m ≡ unrefined deepgram
unfolding refine
refine-unheard c bytes deepgram fails m h = ground arith
refine-unheard c bytes deepgram (answers text) m h = ground (arith, h)

refine-heard :
    (c : Setting) (bytes : ℕ) (deepgram : String) (t m : Answer)
    → is_asked c bytes ≡ true
    → is_empty (heard c t) ≡ false
    → refine c bytes deepgram t m ≡ merge c m (heard c t) deepgram
unfolding refine
refine-heard c bytes deepgram fails m asked h = absurd (ground (arith, no_text c, h))
refine-heard c bytes deepgram (answers text) m asked h = ground (arith, asked, h)

-- Whatever the services answer, a refinement ends in one of three ways: with Deepgram's text, if
-- Groq is not asked, fails or has heard nothing; with the text of a merge that was due and has
-- succeeded; or with Groq's text, if no merge has.
pub refine-Outcome :
    (c : Setting) (bytes : ℕ) (deepgram : String) (t m : Answer)
    → Outcome c bytes deepgram t m (refine c bytes deepgram t m)
refine-Outcome c bytes deepgram t m = elim (Bool-cases (is_asked c bytes)) [
  | inr unasked ↦ kept (inl unasked) (refine-unasked c bytes deepgram t m unasked)
  | inl asked ↦ elim (Bool-cases (is_empty (heard c t))) [
    | inl nothing ↦ kept (inr nothing) (refine-unheard c bytes deepgram t m nothing)
    | inr something ↦
        let e = refine-heard c bytes deepgram t m asked something in
        elim (merge-cases c m (heard c t) deepgram) [
          | inl (good, f) ↦ merged asked something good (e ∙ f)
          | inr (no_merge, f) ↦ heard_only asked something no_merge (e ∙ f)
        ]
  ]
]

-- A refinement of a text that is not empty is not empty.
pub refine-written :
    (c : Setting) (bytes : ℕ) (deepgram : String) (t m : Answer)
    → is_empty deepgram ≡ false
    → is_empty (refine c bytes deepgram t m).text ≡ false
refine-written c bytes deepgram t m given = written (refine-Outcome c bytes deepgram t m)
  where
    written : {r : Refined} → Outcome c bytes deepgram t m r → is_empty r.text ≡ false
    written (kept why e) = ap (λ x. is_empty x.text) e ∙ given
    written (merged asked something good e) = ap (λ x. is_empty x.text) e ∙ good.written
    written (heard_only asked something no_merge e) = ap (λ x. is_empty x.text) e ∙ something
