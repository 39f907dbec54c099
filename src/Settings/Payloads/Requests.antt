-- ===== src/Settings/Payloads/Requests.antt =====
-- app/pipeline.py: the requests to LM Studio meet the limits of their class.
use longshot.Common.{◌≡◌, ◌≢◌, refl, Text, true, false, Bool, List, [], ◌∷◌, ◌++◌, arith}
use longshot.Settings.{Floats, Settings, valid_settings}
use longshot.Settings.Payloads.{
  system, user, ChatMessage, ChatCompletionRequest, valid_request, model_name, request,
  summary_instructions, summary_request, stream_request, system_message,
}

abbrev pub Instructions : List ChatMessage → Type 0
Instructions [] = Unit
Instructions (m ∷ ms) = (m.role ≡ system) × (m.content ≢ []) × Instructions ms

module _ (f : Floats) (s : Settings f) where
  -- A request with a model, whose last message is the prompt of the user, behind instructions that
  -- are not empty.
  pub record Asks (prompt : Text) (r : ChatCompletionRequest f) : Type 0 where
    pub within_limits : valid_request f r ≡ true
    pub some_model : r.model ≢ []
    pub instructions : List ChatMessage
    pub instruct : Instructions instructions
    pub in_order : r.messages ≡ instructions ++ record { role = user; content = prompt } ∷ []

  request-valid :
      valid_settings f s ≡ true
      → (messages : List ChatMessage) (stream : Bool)
      → valid_request f (request f s messages stream) ≡ true
  unfolding valid_settings valid_request request
  request-valid fits messages stream = ground arith

  model_name-some : (model : Text) → model_name f s model ≢ []
  unfolding model_name
  model_name-some [] e = cc e
  model_name-some (c ∷ cs) e = cc e

  request-Asks :
      valid_settings f s ≡ true
      → (stream : Bool) (prompt : Text) (instructions : List ChatMessage)
      → Instructions instructions
      → Asks prompt
          (request f s (instructions ++ record { role = user; content = prompt } ∷ []) stream)
  unfolding request
  request-Asks fits stream prompt instructions instruct = record {
    within_limits = request-valid fits _ stream;
    some_model = model_name-some s.lmstudio_model;
    instructions = instructions;
    instruct = instruct;
    in_order = refl;
  }

  system-Instructions : (text : Text) → Instructions (system_message f s text)
  unfolding system_message
  system-Instructions [] = tt
  system-Instructions (c ∷ cs) = (refl, (λ e. cc e), tt)

  -- Where the settings are within their limits, every request that a summary or a stream sends to
  -- LM Studio is within the limits of its class, so that building it raises no ValidationError. It
  -- names a model, its last message is the prompt of the user, and all messages before that are
  -- instructions with a text.
  pub requests-Asks :
      valid_settings f s ≡ true
      → (prompt instructions : Text)
      → Asks prompt (summary_request f s prompt)
        × Asks prompt (stream_request f s prompt instructions)
  unfolding summary_request stream_request system_message
  requests-Asks fits prompt instructions = (
    request-Asks fits false prompt (summary_instructions ∷ []) (refl, (λ e. cc e), tt),
    request-Asks fits true prompt (system_message f s instructions)
        (system-Instructions instructions),
  )
