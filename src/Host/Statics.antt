-- ===== src/Host/Statics.antt =====
-- What a job keeps while it is executed: its names and its plan, also in a static job.
use mathlib.Core.Option.{some-injective}
use l8collector.Prelude.{
  ◌≡◌, refl, sym, ap, ◌∙◌, inl, inr, some, List, [], ◌∷◌, String, Outcome, ok, ◌==◌, if_yes, if_no,
  nat_eq, string_eq, arith, Bool-cases,
}
use l8collector.Prelude.Int.{ℤ}
use l8collector.Prelude.Dict.{Dict}
use l8collector.Types.{CJob, Host, HostProtocol, Target, protocol_eq}
use l8collector.Change.{mark_start, mark_ended}
use l8collector.Host.State.{HostCollector, Env}
use l8collector.Host.Loop.{ip_address, device_status, ip_address_do, device_status_do, static_do}
use l8collector.Host.Ready.{IsLive}

-- The job has its names and its plan.
abbrev pub Same : CJob → CJob → Type 0
Same j k = (k.pollaris_name ≡ j.pollaris_name) × (k.job_name ≡ j.job_name) × (k.cadence ≡ j.cadence)

pub mark_start-Same : (now : ℤ) (j : CJob) → Same j (mark_start now j)
unfolding mark_start
mark_start-Same now j = ground arith

pub mark_ended-Same : (now : ℤ) (j : CJob) → Same j (mark_ended now j)
unfolding mark_ended
mark_ended-Same now j = (refl, refl, refl)

first_address :
    (env : Env) (configs : List HostProtocol) (j : CJob)
    → (k : CJob) × ((elim configs [
      | [] ↦ ok j
      | c ∷ _ ↦ ok (record j { result = some (env.encode_addr c.addr) })
    ])
        ≡ ok k)
      × Same j k
first_address env [] j = (j, refl, (refl, refl, refl))
first_address env (c ∷ cs) j =
    (record j { result = some (env.encode_addr c.addr) }, refl, (refl, refl, refl))

first_host :
    (env : Env) (hosts : Dict String Host) (j : CJob)
    → (k : CJob) × ((elim hosts [
      | [] ↦ ok j
      | e ∷ _ ↦ elim e.1.configs [
        | [] ↦ ok j
        | c ∷ _ ↦ ok (record j { result = some (env.encode_addr c.addr) })
      ]
    ])
        ≡ ok k)
      × Same j k
first_host env [] j = (j, refl, (refl, refl, refl))
first_host env (e ∷ es) j = first_address env e.1.configs j

ip_address_do-Same :
    (env : Env) (t : Target) (j : CJob)
    → (k : CJob) × (ip_address_do env (some t) j ≡ ok k) × Same j k
unfolding ip_address_do
ip_address_do-Same env t j = first_host env (env.range_hosts t.hosts) j

pub static_do-Same :
    (env : Env) (hc : HostCollector) (j : CJob) (o : Outcome CJob)
    → IsLive hc
    → static_do env hc j ≡ some o
    → (k : CJob) × (o ≡ ok k) × Same j k
unfolding static_do device_status_do
static_do-Same env hc j o live e = elim (Bool-cases (j.job_name == ip_address)) [
  | inl y ↦
      let (t, te) = live.target in
      let (k, f, same) = ip_address_do-Same env t j in
      (
        k,
        sym (some-injective _ _ (sym (if_yes _ y) ∙ e)) ∙ ap (λ x. ip_address_do env x j) te ∙ f,
        same,
      )
  | inr d ↦ elim (Bool-cases (j.job_name == device_status)) [
    | inl y ↦
        let (cols, ce) = live.collectors in
        (
          _,
          sym (some-injective _ _ (sym (if_no _ d ∙ if_yes _ y) ∙ e))
              ∙ ap (λ x. device_status_do env x j) ce,
          (refl, refl, refl),
        )
    | inr k ↦ cc (sym (if_no _ d ∙ if_no _ k) ∙ e)
  ]
]
