-- ===== src/Kube/Review.antt =====
-- The HTTP handler of the admission webhook: NewAdmissionHandler of
-- collector/protocols/k8sclient/Webhook.go. Reading the body, the JSON library and the callback are
-- parameters.
mod Observing
mod Examples
use l8collector.Prelude.{
  Bool, true, false, Option, none, some, List, [], ◌∷◌, String, ◌⊎◌, inl, inr, if◌then◌else◌,
}
use l8collector.Kube.Webhook.{
  WebhookRule, matches_webhook_rule, Request, Decoded, AdmissionEvent, build_admission_event,
}

-- AdmissionResponse; `message` is that of the status, where there is one
pub record Response : Type 0 where
  pub allowed : Bool
  pub uid : String
  pub warnings : List String
  pub message : Option String

-- What the handler writes: a status of 400 or 500 with a text, or the review with the response.
pub data Answer : Type 0 where
  bad_request internal_error : String → Answer
  reviewed : Response → Answer

abbrev pub allow : Response
allow = record { allowed = true; uid = ""; warnings = []; message = none }

-- what the error of the callback, where there is one, makes of the response
abbrev pub with_error : Response → Option String → Response
with_error response none = response
with_error response (some e) = record response { warnings = e ∷ []; message = some e }

module _ {Raw : Type 0} (decode : Raw → Option Decoded) (marshal : Response → Option String)
    (rules : List WebhookRule) (callback : Option (AdmissionEvent → Option String)) where
  -- the response to a review, and the events that the callback is given
  unfoldable pub respond : Option (Request Raw) → Response × List AdmissionEvent
  unfolding matches_webhook_rule build_admission_event
  respond none = (allow, [])
  respond (some q) =
      let named : Response = record allow { uid = q.uid } in
      elim callback [
        | none ↦ (named, [])
        | some call ↦
            let event = build_admission_event decode q in
            if matches_webhook_rule rules q.resource q.operation
            then (with_error named (call event), event ∷ [])
            else (named, [])
      ]

  abbrev pub answer : Response → Answer
  answer response = elim (marshal response) [ none ↦ reviewed response | some e ↦ internal_error e ]

  -- the handler, for the body or the error of its reading or decoding
  unfoldable pub admission_handler : String ⊎ Option (Request Raw) → Answer × List AdmissionEvent
  unfolding respond
  admission_handler (inl e) = (bad_request e, [])
  admission_handler (inr review) = (answer (respond review).0, (respond review).1)
