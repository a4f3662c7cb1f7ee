-- ===== src/Intake/Clarifier.antt =====
-- intake/clarifier.ts. A confidence is in thousandths, a time an ISO text; the text of a question is
-- a constructor with what it interpolates.
pub mod Conversation
use github_auto_dev.Base.{
  ℕ, ◌+◌, ◌-◌, leb, ltb, String, truthy, Option, none, some, Bool, true, false, ◌||◌, if◌then◌else◌,
}
use github_auto_dev.Base.Text.{◌<>◌, take_chars, trim}

pub data IntakeSessionState : Type 0 where
  pending confirming ready dropped : IntakeSessionState

pub data DropReason : Type 0 where
  inactivity_timeout max_rounds user_abandoned : DropReason

pub record IntakeSession : Type 0 where
  pub id : String
  pub state : IntakeSessionState
  pub round : ℕ
  pub last_confidence : ℕ
  pub last_user_at : String
  pub opened_at : String
  pub drop_reason : Option DropReason
  pub transcript_summary : String

pub record ClarifierConfig : Type 0 where
  pub round_limit : ℕ
  pub confidence_threshold : ℕ
  pub inactivity_timeout_ms : ℕ

pub record ClarifierInput : Type 0 where
  pub message : String
  pub confidence : ℕ
  pub explicit_triggered : Bool
  pub gave_up : Bool
  pub now : String

-- `nextClarifierQuestion`: its round and the confidence that it shows.
pub data Question : Type 0 where
  ask : (round confidence : ℕ) → Question

pub record ClarifierOutput : Type 0 where
  pub session : IntakeSession
  pub next_question : Option Question
  pub done : Bool

abbrev pub is_terminal : IntakeSessionState → Bool
is_terminal ready = true
is_terminal dropped = true
is_terminal _ = false

unfoldable pub append_turn : String → String → String
append_turn prev message =
    let turn = "USER: " <> take_chars 200 (trim message) in
    if truthy prev then prev <> "\n" <> turn else turn

abbrev pub end_with : IntakeSession → ClarifierOutput
end_with s = record { session = s; next_question = none; done = true }

unfoldable pub advance : ClarifierConfig → IntakeSession → ClarifierInput → ClarifierOutput
advance config prev i =
    let next_round = prev.round + 1 in
    let turn = append_turn prev.transcript_summary i.message in
    if is_terminal prev.state
    then end_with prev
    else if i.gave_up
    then end_with
        (record prev { state = dropped; drop_reason = some user_abandoned; last_user_at = i.now })
    else if i.explicit_triggered
    then end_with (record prev {
      state = ready;
      last_confidence = 1000;
      last_user_at = i.now;
      transcript_summary = turn;
    })
    else if leb config.confidence_threshold i.confidence
    then end_with (record prev {
      state = ready;
      last_confidence = i.confidence;
      last_user_at = i.now;
      transcript_summary = turn;
    })
    else if ltb config.round_limit next_round
    then end_with (record prev {
      state = dropped;
      drop_reason = some max_rounds;
      last_confidence = i.confidence;
      last_user_at = i.now;
    })
    else record {
      session = record prev {
        state = confirming;
        round = next_round;
        last_confidence = i.confidence;
        last_user_at = i.now;
        transcript_summary = turn;
      };
      next_question = some (ask next_round i.confidence);
      done = false;
    }

-- `isInactive`. The time of the last message in milliseconds is what `Date.parse` returns, `none`
-- for NaN.
unfoldable pub is_inactive : ClarifierConfig → IntakeSession → (last : Option ℕ) → (now : ℕ) → Bool
is_inactive config s none now = false
is_inactive config s (some last) now =
    if is_terminal s.state then false else ltb config.inactivity_timeout_ms (now - last)

unfoldable pub fresh_session : String → String → Option String → IntakeSession
fresh_session id now none = record {
  id = id;
  state = pending;
  round = 0;
  last_confidence = 0;
  last_user_at = now;
  opened_at = now;
  drop_reason = none;
  transcript_summary = "";
}
fresh_session id now (some summary) = record {
  id = id;
  state = pending;
  round = 0;
  last_confidence = 0;
  last_user_at = now;
  opened_at = now;
  drop_reason = none;
  transcript_summary = summary;
}

unfoldable pub drop_for_inactivity : IntakeSession → String → IntakeSession
drop_for_inactivity s now =
    if is_terminal s.state
    then s
    else record s { state = dropped; drop_reason = some inactivity_timeout; last_user_at = now }
