-- ===== src/Service/Routing.antt =====
-- Where go/collector/service/ExecuteService.go sends a job after Post took its host from the map.
use Prim.Native.String.{◌++◌ as str_append}
use l8collector.Prelude.{
  ◌≡◌, refl, ◌∙◌, sym, ap, Bool, true, Option, none, some, List, [], ◌∷◌, ◌++◌, String, ok, ◌⊎◌,
  inl, inr, In, if◌then◌else◌, string_eq,
}
use l8collector.Prelude.Dict.{get}
use l8collector.Types.{CJob, Host, Target}
use l8collector.Queue.{Registry}
use l8collector.Host.State.{Env}
use l8collector.Service.{
  Entry, CollectorService, Reply, executed, refused, down, host_collector_key, post, execute_put,
  execute_post, first_answer,
}
use l8collector.Service.Posting.{IsService}
use l8collector.Service.Stopping.{covers-In, post-down}

-- Each of the participants fails, or has no such host.
unfoldable pub AllRefuse : List (CJob → Option Reply) → CJob → Type 0
AllRefuse peers job =
    (peer : CJob → Option Reply)
    → In peer peers
    → (peer job ≡ none) ⊎ ((e : String) × (peer job ≡ some (refused e)))

first_answer-refused :
    (peer : CJob → Option Reply) (peers : List (CJob → Option Reply)) (job : CJob)
    → (peer job ≡ none) ⊎ ((e : String) × (peer job ≡ some (refused e)))
    → first_answer (peer ∷ peers) job ≡ first_answer peers job
unfolding first_answer
first_answer-refused peer peers job (inl e) = rw (e, first_answer) refl
first_answer-refused peer peers job (inr (x, e)) = rw (e, first_answer) refl

first_answer-nobody :
    (peers : List (CJob → Option Reply)) (job : CJob)
    → AllRefuse peers job
    → first_answer peers job ≡ executed (record job { error = "Primary Not Found" })
unfolding AllRefuse first_answer
first_answer-nobody [] job a = refl
first_answer-nobody (p ∷ ps) job a =
    first_answer-refused p ps job (a p (inl refl)) ∙ first_answer-nobody ps job (λ q i. a q (inr i))

first_answer-before :
    (before peers : List (CJob → Option Reply)) (job : CJob)
    → AllRefuse before job
    → first_answer (before ++ peers) job ≡ first_answer peers job
unfolding AllRefuse
first_answer-before [] peers job a = refl
first_answer-before (p ∷ ps) peers job a =
    first_answer-refused p (ps ++ peers) job (a p (inl refl))
    ∙ first_answer-before ps peers job (λ q i. a q (inr i))

absent-Routed :
    (env : Env) (peers : List (CJob → Option Reply)) (job : CJob) (s : CollectorService)
    → get (host_collector_key job.target_id job.host_id) s.host_collectors ≡ none
    → (execute_post env peers job s ≡ ok (first_answer peers job))
      × (execute_put env job s
          ≡ ok (
              refused (
                str_append "No job was found with key: "
                  (host_collector_key job.target_id job.host_id))))
unfolding execute_post execute_put
absent-Routed env peers job s n = (rw (n, execute_post) refl, rw (n, execute_put) refl)

-- After Post of a device that is down, a job for a host of the device is not executed here. Put refuses
-- it. Post returns the job that the first participant executed, where those before it refuse; where all
-- refuse, it returns the job with an error.
pub execute_post-down :
    (smooth : Bool) (env : Env) (r : Registry) (device : Target) (s : CollectorService)
    → IsService smooth s
    → (h : String × Host) → In h device.hosts
    → (job done : CJob) → job.target_id ≡ device.target_id
    → job.host_id ≡ h.1.host_id
    → (before : List (CJob → Option Reply)) (peer : CJob → Option Reply)
      (after : List (CJob → Option Reply))
    → AllRefuse before job
    → peer job ≡ some (executed done)
    → (s' : CollectorService) × (post r env down device s ≡ ok s')
      × (execute_post env (before ++ peer ∷ after) job s' ≡ ok (executed done))
      × (execute_post env before job s'
          ≡ ok (executed (record job { error = "Primary Not Found" })))
      × (execute_put env job s'
          ≡ ok (
              refused (
                str_append "No job was found with key: "
                  (host_collector_key device.target_id h.1.host_id))))
unfolding first_answer
execute_post-down smooth env r device s v h i job done et eh before peer after a p =
    let (s', e, v', g) = post-down smooth env device r s v in
    let k = host_collector_key device.target_id h.1.host_id in
    let same : k ≡ host_collector_key job.target_id job.host_id = rw (et, eh) refl in
    let gone : get (host_collector_key job.target_id job.host_id) s'.host_collectors ≡ none =
      rw (sym same) (g k ∙ if_covered _ (covers-In device device.hosts h i)) in
    let (f, put) = absent-Routed env (before ++ peer ∷ after) job s' gone in
    (
      s',
      e,
      f ∙ ap ok (first_answer-before before (peer ∷ after) job a ∙ rw (p, first_answer) refl),
      (absent-Routed env before job s' gone).0 ∙ ap ok (first_answer-nobody before job a),
      rw same put,
    )
  where
    if_covered : {b : Bool} (o : Option Entry) → b ≡ true → (if b then none else o) ≡ none
    if_covered o e = rw e refl
