-- ===== src/Gateway/Session/Recording.antt =====
-- The recording of a session: what the recorder makes of the calls of its handlers.
use aegis_honeypot.Prelude.{Bool, true, false, List, [], ◌∷◌, ◌++◌, map}
use aegis_honeypot.Prelude.Text.{Text}
use aegis_honeypot.Collector.{open_recorder, write_records}
use aegis_honeypot.Gateway.Session.{Action, recorded_output, recorded_input}

-- A call of `write_record`: what the session had done before, whether it is output, and the text.
pub record Recorded (F : Type 0) : Type 0 where
  pub before : List (Action F)
  pub is_output : Bool
  pub text : Text

abbrev push : Bool → Text → List Text → List Text
push true text texts = text ∷ texts
push false text texts = texts

module _ {F : Type 0} where
  -- The calls of a session, the first first.
  abbrev pub record_calls : List (Action F) → List (Recorded F)
  record_calls [] = []
  record_calls (recorded_output text ∷ t) =
      record_calls t ++ record { before = t; is_output = true; text = text } ∷ []
  record_calls (recorded_input text ∷ t) =
      record_calls t ++ record { before = t; is_output = false; text = text } ∷ []
  record_calls (a ∷ t) = record_calls t

  -- The output among some calls.
  abbrev pub outputs : List (Recorded F) → List Text
  outputs [] = []
  outputs (c ∷ cs) = push c.is_output c.text (outputs cs)

-- The lines of a recording, `encode` being their serialisation.
abbrev pub recording :
    {F : Type 0} → (Recorded F → Text) → Text → Text → List (Action F) → List Text
recording encode marker header t =
    (write_records marker (open_recorder header) (map encode (record_calls t))).file
