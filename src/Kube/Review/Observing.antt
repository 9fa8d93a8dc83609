-- ===== src/Kube/Review/Observing.antt =====
-- What the admission handler answers and observes, with the rules that are collected from the polls.
use mathlib.Core.Option.{some-injective}
use l8collector.Prelude.{
  ◌≡◌, ◌↔◌, ◌⊎◌, inl, inr, refl, sym, ap, ◌∙◌, true, Option, none, some, List, [], ◌∷◌, String, ok,
  ok-injective, subst, All, Bool-cases, if◌then◌else◌, if_yes, if_no,
}
use l8collector.Kube.Webhook.{
  WebhookRule, matches_webhook_rule, Request, Decoded, AdmissionEvent, build_admission_event,
}
use l8collector.Kube.Admission.{BootPoll}
use l8collector.Kube.Rules.{webhook_rules_from_pollaris_models}
use l8collector.Kube.Rules.Collected.{IsPlain, SomeAsks}
use l8collector.Kube.Rules.Asking.{webhook_rules_iff}
use l8collector.Kube.Review.{
  Response, reviewed, internal_error, allow, with_error, respond, answer, admission_handler,
}

-- The rules that were collected match what the polls ask for.
asked :
    {Raw : Type 0} (polls : List BootPoll) (rules : List WebhookRule) (q : Request Raw)
    → All IsPlain polls
    → webhook_rules_from_pollaris_models polls ≡ ok (some rules)
    → (matches_webhook_rule rules q.resource q.operation ≡ true)
      ↔ SomeAsks polls q.resource q.operation
asked polls rules q h e = elim (webhook_rules_iff polls h) [
  | inl n ↦ cc (e, n.0)
  | inr (made, f, m) ↦
      subst
        (λ rs.
          (matches_webhook_rule rs q.resource q.operation ≡ true)
          ↔ SomeAsks polls q.resource q.operation)
        (some-injective _ _ (ok-injective (sym f ∙ e))) (m q.resource q.operation)
]

with_error-kept :
    (r : Response) (e : Option String)
    → ((with_error r e).allowed ≡ r.allowed) × ((with_error r e).uid ≡ r.uid)
with_error-kept r none = (refl, refl)
with_error-kept r (some e) = (refl, refl)

abbrev named : {Raw : Type 0} → Request Raw → Response
named q = record allow { uid = q.uid }

-- The answer of the handler is the written response.
handled :
    {Raw : Type 0} (decode : Raw → Option Decoded) (marshal : Response → Option String)
    (rules : List WebhookRule) (call : AdmissionEvent → Option String) (q : Request Raw)
    (p : Response × List AdmissionEvent)
    → ((r : Response) → marshal r ≡ none)
    → (if matches_webhook_rule rules q.resource q.operation
        then (
          with_error (named q) (call (build_admission_event decode q)),
          build_admission_event decode q ∷ [],
        )
        else (named q, []))
      ≡ p
    → admission_handler decode marshal rules (some call) (inr (some q)) ≡ (reviewed p.0, p.1)
unfolding admission_handler respond
handled decode marshal rules call q p w e =
    ap (λ (r : Response × List AdmissionEvent). (answer decode marshal rules (some call) r.0, r.1))
      e
    ∙ ap (λ o. (elim o [ none ↦ reviewed p.0 | some x ↦ internal_error x ], p.1)) (w p.0)

-- With the rules that are collected from polls without bars in their groups and versions, each review is
-- allowed, and the callback is given the event of a request exactly once if a poll asks for its type and
-- operation, and not at all otherwise. The JSON library writes every response.
pub admission_handler_iff :
    {Raw : Type 0} (decode : Raw → Option Decoded) (marshal : Response → Option String)
    (polls : List BootPoll) (rules : List WebhookRule) (call : AdmissionEvent → Option String)
    (q : Request Raw)
    → All IsPlain polls
    → webhook_rules_from_pollaris_models polls ≡ ok (some rules)
    → ((r : Response) → marshal r ≡ none)
    → (response : Response) × (events : List AdmissionEvent) × (admission_handler decode marshal
          rules
          (some call)
          (inr (some q))
        ≡ (reviewed response, events))
      × (response.allowed ≡ true)
      × (response.uid ≡ q.uid)
      × (((events ≡ build_admission_event decode q ∷ []) × SomeAsks polls q.resource q.operation)
          ⊎ ((events ≡ []) × (¬ SomeAsks polls q.resource q.operation)))
admission_handler_iff decode marshal polls rules call q h e w =
    let same = asked polls rules q h e in
    elim (Bool-cases (matches_webhook_rule rules q.resource q.operation)) [
      | inl m ↦
          let event = build_admission_event decode q in
          let kept = with_error-kept (named q) (call event) in
          (
            with_error (named q) (call event),
            event ∷ [],
            handled decode marshal rules call q (with_error (named q) (call event), event ∷ []) w
                (if_yes _ m),
            kept.0,
            kept.1,
            inl (refl, same.0 m),
          )
      | inr d ↦ (
        named q,
        [],
        handled decode marshal rules call q (named q, []) w (if_no _ d),
        refl,
        refl,
        inr (refl, λ a. cc (d, same.1 a)),
      )
    ]
