-- ===== src/Rest/Outcomes.antt =====
-- What comes of a job of the REST collector.
use Prim.Native.String.{◌++◌ as str_append}
use l8collector.Prelude.{
  ℕ, ◌≡◌, ◌≤◌, ◌<◌, refl, ap, ◌∙◌, true, false, ◌||◌, Option, none, some, String, string_eq, nat_eq,
  if◌then◌else◌, ok, panic, ◌⊎◌, inl, inr, List, ltb, leb, arith, Bool-cases, Option-cases, if_yes,
  if_no,
}
use l8collector.Types.{CJob}
use l8collector.Text.Numbers.{decimal}
use l8collector.Rest.{Response, Web, Session}
use l8collector.Rest.Calls.{ensure_session, disconnect}
use l8collector.Rest.Jobs.{
  What, parse_what, failed, request_of, answered, exec_request, exec_what, exec_ensured, exec,
}
use l8collector.Rest.Frame.{Same, ensure_session_keeps}

-- The job has one error more, and its old result.
abbrev pub IsFailed : CJob → CJob → Type 0
IsFailed job done = (e : String) × (done ≡ failed e job)

module _ {W : Type 0} (web : Web W) (wrap : String → List ℕ) where
  -- The job has the body of the answer to the request that its poll describes, with a status of 2xx. The
  -- request was sent in a session with the host of `s`.
  abbrev pub IsAnswered : String ⊎ String → CJob → Session W → CJob → Type 0
  IsAnswered poll job s done =
      (what : What) × (t : Session W) × (r : Response) × (w : W) × ((text : String) × (poll
          ≡ inr text)
        × (parse_what text ≡ inr what))
      × Same s t
      × (web.send (request_of t what job) t.client ≡ (inr r, w))
      × (200 ≤ r.status)
      × (r.status < 300)
      × (done ≡ record job { error_count = 0; result = some (wrap r.body) })

  read_failed :
      (job : CJob) (r : Response) (e : String)
      → r.read_error ≡ some e
      → answered wrap job (inr r) ≡ failed e job
  read_failed job r e f = ground (arith, f)

  read_whole :
      (job : CJob) (r : Response)
      → r.read_error ≡ none
      → answered wrap job (inr r) ≡ (
          if ltb r.status 200 || leb 300 r.status
          then failed
              (str_append "HTTP " (str_append (decimal r.status) (str_append ": " r.body)))
              job
          else record job { error_count = 0; result = some (wrap r.body) })
  read_whole job r n = ground (arith, n)

  in_range : (n : ℕ) → (ltb n 200 || leb 300 n) ≡ false → (200 ≤ n) × (n < 300)
  in_range n e = ground arith

  answered_cases :
      (job : CJob) (a : String ⊎ Response)
      → IsFailed job (answered wrap job a)
        ⊎ ((r : Response) × (a ≡ inr r)
            × (200 ≤ r.status)
            × (r.status < 300)
            × (answered wrap job a ≡ record job { error_count = 0; result = some (wrap r.body) }))
  answered_cases job (inl e) = inl (e, refl)
  answered_cases job (inr r) = elim (Option-cases r.read_error) [
    | inr (e, f) ↦ inl (e, read_failed job r e f)
    | inl n ↦ elim (Bool-cases (ltb r.status 200 || leb 300 r.status)) [
      | inl b ↦ inl (_, read_whole job r n ∙ if_yes _ b)
      | inr d ↦ inr (
        r,
        refl,
        (in_range r.status d).0,
        (in_range r.status d).1,
        read_whole job r n ∙ if_no _ d,
      )
    ]
  ]

  refused :
      (what : What) (job : CJob) (t : Session W) (e : String)
      → web.bad_request what.method (request_of t what job).url ≡ some e
      → exec_request web wrap what job t ≡ (failed e job, t)
  unfolding exec_request request_of
  refused what job t e f = ground (arith, f)

  sent :
      (what : What) (job : CJob) (t : Session W)
      → web.bad_request what.method (request_of t what job).url ≡ none
      → (exec_request web wrap what job t).0
        ≡ answered wrap job (web.send (request_of t what job) t.client).0
  unfolding exec_request request_of
  sent what job t f = ground (arith, f)

  exec_request_cases :
      (what : What) (job : CJob) (s t : Session W) (text : String)
      → parse_what text ≡ inr what
      → Same s t
      → IsFailed job (exec_request web wrap what job t).0
        ⊎ IsAnswered (inr text) job s (exec_request web wrap what job t).0
  exec_request_cases what job s t text e k =
      let answer = web.send (request_of t what job) t.client in
      elim (Option-cases (web.bad_request what.method (request_of t what job).url)) [
        | inr (x, f) ↦ inl (x, ap (λ (p : CJob × Session W). p.0) (refused what job t x f))
        | inl n ↦ elim (answered_cases job answer.0) [
          | inl (x, f) ↦ inl (x, sent what job t n ∙ f)
          | inr (r, a, low, high, d) ↦ inr (
            what,
            t,
            r,
            answer.1,
            (text, refl, e),
            k,
            (λ i. (a i, answer.1)),
            low,
            high,
            sent what job t n ∙ d,
          )
        ]
      ]

  exec_what_cases :
      (text : String) (parsed : String ⊎ What) (job : CJob) (s t : Session W)
      → parse_what text ≡ parsed
      → Same s t
      → IsFailed job (exec_what web wrap job parsed t).0
        ⊎ IsAnswered (inr text) job s (exec_what web wrap job parsed t).0
  exec_what_cases text (inl x) job s t e k = inl (x, refl)
  exec_what_cases text (inr what) job s t e k = exec_request_cases what job s t text e k

  exec_ensured_cases :
      (poll : String ⊎ String) (job : CJob) (s : Session W) (before : Option String × Session W)
      → Same s before.1
      → IsFailed job (exec_ensured web wrap poll job before).0
        ⊎ IsAnswered poll job s (exec_ensured web wrap poll job before).0
  exec_ensured_cases poll job s (some e, t) k = inl (_, refl)
  exec_ensured_cases (inl e) job s (none, t) k = inl (e, refl)
  exec_ensured_cases (inr text) job s (none, t) k =
      exec_what_cases text (parse_what text) job s (record t { connected = true }) refl k

  ensured_keeps :
      (s : Session W) → Same s (if s.ainfo.session_auth then ensure_session web s else (none, s)).1
  ensured_keeps s = ground (arith, ensure_session_keeps web s)

  -- Exec returns between Init and Disconnect: the job has one error more and its old result, or it has no
  -- error in a row and the body of an answer with a status of 2xx to the request that its poll describes,
  -- sent to the base URL of the host. After Disconnect it panics.
  pub exec_outcome :
      (poll : String ⊎ String) (job : CJob) (s : Session W)
      → ((done : CJob) × (t : Session W) × (exec web wrap poll job (some s) ≡ ok (done, some t))
          × (IsFailed job done ⊎ IsAnswered poll job s done))
        × (exec web wrap poll job (disconnect (some s)) ≡ panic)
  unfolding exec
  exec_outcome poll job s =
      let before = if s.ainfo.session_auth then ensure_session web s else (none, s) in
      let done = exec_ensured web wrap poll job before in
      ((done.0, done.1, refl, exec_ensured_cases poll job s before (ensured_keeps s)), refl)
