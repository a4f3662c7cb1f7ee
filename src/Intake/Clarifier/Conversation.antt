-- ===== src/Intake/Clarifier/Conversation.antt =====
-- How a conversation goes.
use github_auto_dev.Base.{
  if_true, ℕ, ◌+◌, ◌≤◌, ◌≡◌, refl, Option, none, some, List, [], ◌∷◌, ◌++◌, true, false, length,
  arith, inl, inr, ◌↔◌, ◌⊎◌,
}
use github_auto_dev.Intake.Clarifier.{
  ready, IntakeSession, ClarifierConfig, ClarifierInput, ClarifierOutput, Question, ask,
  is_terminal, end_with, advance,
}

-- The question of an answer, if it has one.
abbrev pub asked : ClarifierOutput → List Question
asked out = to_list out.next_question
  where
    to_list : Option Question → List Question
    to_list none = []
    to_list (some q) = q ∷ []

-- The session after messages, and the questions asked on the way.
abbrev pub talk :
    ClarifierConfig → List ClarifierInput → IntakeSession → IntakeSession × List Question
talk config [] s = (s, [])
talk config (i ∷ is) s =
    let out = advance config s i in
    let rest = talk config is out.session in (rest.0, asked out ++ rest.1)

-- The questions carry the numbers behind `n`, in order.
abbrev pub Numbered : ℕ → List Question → Type 0
Numbered n [] = Unit
Numbered n (ask round confidence ∷ qs) = (round ≡ n + 1) × Numbered (n + 1) qs

-- One message either ends the session with no question, or asks the question of the next round,
-- within the limit.
abbrev Moves : ClarifierConfig → IntakeSession → ClarifierOutput → Type 0
Moves config s out =
    ((is_terminal out.session.state ≡ true)
      × (out.next_question ≡ none)
      × (out.session.round ≡ s.round))
    ⊎ ((out.next_question ≡ some (ask (s.round + 1) out.session.last_confidence))
        × (out.session.round ≡ s.round + 1)
        × (s.round + 1 ≤ config.round_limit))

advance-Moves :
    (config : ClarifierConfig) (s : IntakeSession) (i : ClarifierInput)
    → Moves config s (advance config s i)
unfolding advance
advance-Moves config s i = ground arith

advance_sticky :
    (config : ClarifierConfig) (s : IntakeSession) (i : ClarifierInput)
    → is_terminal s.state ≡ true
    → advance config s i ≡ end_with s
unfolding advance
advance_sticky config s i h = if_true (is_terminal s.state) _ _ h

talk-over :
    (config : ClarifierConfig) (is : List ClarifierInput) (s : IntakeSession)
    → is_terminal s.state ≡ true
    → talk config is s ≡ (s, [])
talk-over config [] s h = refl
talk-over config (i ∷ is) s h = rw (advance_sticky config s i h, talk-over config is s h) refl

-- What a conversation from a session has come to.
pub record Talked (config : ClarifierConfig) (is : List ClarifierInput) (s : IntakeSession)
    (end : IntakeSession × List Question) : Type 0 where
  pub numbered : Numbered s.round end.1
  pub counts : end.0.round ≡ s.round + length end.1
  pub bounded : end.0.round ≤ config.round_limit
  pub ended : (is_terminal end.0.state ≡ true) ⊎ (length end.1 ≡ length is)

talk-Talked :
    (config : ClarifierConfig) (is : List ClarifierInput) (s : IntakeSession)
    → s.round ≤ config.round_limit
    → Talked config is s (talk config is s)
talk-Talked config [] s h = record {
  numbered = tt;
  counts = omega arith;
  bounded = h;
  ended = inr refl;
}
talk-Talked config (i ∷ is) s h = elim (advance-Moves config s i) [
  | inl (terminal, silent, same) ↦
      rw (silent, talk-over config is (advance config s i).session terminal)
        (record {
          numbered = tt;
          counts = omega arith;
          bounded = omega arith;
          ended = inl terminal;
        })
  | inr (question, next, low) ↦
      let low' : (advance config s i).session.round ≤ config.round_limit = omega arith in
      let rest = talk-Talked config is (advance config s i).session low' in
      rw question (record {
        numbered = (refl, rw next at rest.numbered);
        counts = omega (arith, rest.counts, next);
        bounded = rest.bounded;
        ended = elim rest.ended [ inl e ↦ inl e | inr e ↦ inr (omega (arith, e)) ];
      })
]

-- A conversation of any number of messages never asks more questions than the configuration allows:
-- the questions are numbered in order behind the session's round, the round counts them, and it
-- stays within the limit. Every message of a session that has not ended was answered by one
-- question, so a session has ended unless its round and the messages together are within the limit.
pub talk-bounded :
    (config : ClarifierConfig) (is : List ClarifierInput) (s : IntakeSession)
    → s.round ≤ config.round_limit
    → Talked config is s (talk config is s)
      × ((is_terminal (talk config is s).0.state ≡ true)
          ⊎ (s.round + length is ≤ config.round_limit))
talk-bounded config is s h =
    let t = talk-Talked config is s h in
    (t, elim t.ended [ inl e ↦ inl e | inr e ↦ inr (omega (arith, e, t.counts, t.bounded)) ])

-- A message makes an open session ready exactly when the user does not give up, and either triggers
-- the issue explicitly or is at least as confident as the threshold; a session that has ended stays
-- as it is, whatever the message.
pub advance-ready_iff :
    (config : ClarifierConfig) (s : IntakeSession) (i : ClarifierInput)
    → (is_terminal s.state ≡ true → advance config s i ≡ end_with s)
      × (is_terminal s.state ≡ false
          → ((advance config s i).session.state ≡ ready) ↔ (
              (i.gave_up ≡ false)
              × ((i.explicit_triggered ≡ true) ⊎ (config.confidence_threshold ≤ i.confidence))))
unfolding advance
advance-ready_iff config s i = (advance_sticky config s i, λ h. ground arith)
