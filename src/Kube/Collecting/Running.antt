-- ===== src/Kube/Collecting/Running.antt =====
-- How a Kubernetes job ends.
use Prim.Native.String.{◌++◌ as str_append}
use l8collector.Prelude.{
  ℕ, ◌≡◌, ◌≢◌, refl, ◌∙◌, sym, ap, subst, Bool, true, Bool-cases, Option, none, some, String, ◌⊎◌,
  inl, inr, Outcome, ok, panic, bind_ok, ◌==◌, if◌then◌else◌, string_eq, arith,
}
use l8collector.Prelude.Dict.{Dict}
use l8collector.Types.{CJob}
use l8collector.Kube.Gvr.{Gvr}
use l8collector.Tables.{CTable, Bytes}
use l8collector.Kube.Cache.{CachedObject, Cache, get_object, list_objects}
use l8collector.Kube.Spec.{CacheSpec, parse_cache_spec, resolve_spec_value}
use l8collector.Kube.Watching.{
  Watch, Started, ensure_watching, start_watching, once_for_key, mark_warmed,
}
use l8collector.Kube.Results.{build_c_map}
use l8collector.Kube.Collecting.{
  Calls, fail, with_result, encoded_map, encoded_table, map_of_item, exec_map, table_result,
  exec_table, finished, args_of, exec_result, exec_watched, exec_spec, exec_poll, exec_connected,
  exec,
}
use l8collector.Kube.Collecting.Tabling.{build_c_table-returns}

-- The job failed, with one error more and the result that it had; or it has a result and no errors in a
-- row. An encoder whose error has no text counts as no error.
pub data Ran (job : CJob) : CJob → Type 0 where
  failed : (e : String) → Ran job (fail e job)
  done : (bytes : Bytes) → Ran job (record job { result = bytes; error_count = 0 })
  unnamed : (e : String) → e ≡ "" → Ran job (record (fail e job) { error_count = 0 })

fail-finished : (e : String) (job : CJob) → Ran job (finished (fail e job))
fail-finished e job = elim (Bool-cases (e == "")) [
  | inl y ↦ rw y (unnamed e ((string_eq.same_iff e "").0 y))
  | inr d ↦ rw d (failed e)
]

module _ (job : CJob) (clean : (job.error == "") ≡ true) where
  with_result-Ran : (x : String ⊎ Bytes) → Ran job (finished (with_result x job))
  with_result-Ran (inl e) = fail-finished e job
  with_result-Ran (inr bytes) = subst (Ran job) (sym (test _ clean)) (done bytes)
    where
      test : {b : Bool} {x : CJob} (y : CJob) → b ≡ true → (if b then x else y) ≡ x
      test y e = rw e refl

  encoded_map-Ran :
      (c : Calls) (x : String ⊎ Dict String Bytes) → Ran job (finished (encoded_map c x job))
  encoded_map-Ran c (inl e) = fail-finished e job
  encoded_map-Ran c (inr m) = with_result-Ran (c.encode_map m)

  encoded_table-Ran : (c : Calls) (x : String ⊎ CTable) → Ran job (finished (encoded_table c x job))
  encoded_table-Ran c (inl e) = fail-finished e job
  encoded_table-Ran c (inr t) = with_result-Ran (c.encode_table t)

  map_of_item-Ran :
      (c : Calls) (miss : String) (spec : CacheSpec) (o : Option CachedObject)
      → Ran job (finished (map_of_item c miss spec o job))
  map_of_item-Ran c miss spec none = fail-finished miss job
  map_of_item-Ran c miss spec (some o) =
      encoded_map-Ran c (build_c_map c.encode (some o) spec.fields)

  exec_map-Ran :
      (c : Calls) (cache : Cache) (spec : CacheSpec) (namespace name : String)
      → Ran job (finished (exec_map c cache spec namespace name job))
  unfolding exec_map
  exec_map-Ran c cache spec namespace name =
      map_of_item-Ran c
        (str_append "cache miss for "
          (str_append spec.gvr (str_append "/" (str_append namespace (str_append "/" name)))))
        spec (get_object spec.gvr namespace name cache)

  exec_table-returns :
      (c : Calls) (cache : Cache) (spec : CacheSpec) (namespace selector : String)
      → (job' : CJob) × (exec_table c cache spec namespace selector job ≡ ok job')
        × Ran job (finished job')
  unfolding exec_table
  exec_table-returns c cache spec namespace selector =
      let (r, e, i) =
        build_c_table-returns c.encode (list_objects c.show spec.gvr namespace selector cache)
          spec.fields spec.column_names in
      (encoded_table c r job, ap (table_result c job) e, encoded_table-Ran c r)

  exec_result-returns :
      (c : Calls) (spec : CacheSpec) (namespace : String) (cache : Cache)
      → (job' : CJob) × (exec_result c spec namespace cache job ≡ ok job') × Ran job job'
  unfolding exec_result
  exec_result-returns c spec namespace cache = elim (Bool-cases (spec.result == "map")) [
    | inl y ↦ (
      finished (
          exec_map c cache spec namespace
            (resolve_spec_value spec.name spec.name_from_arg (args_of job)) job),
      rw (y, exec_result) refl,
      exec_map-Ran c cache spec namespace
          (resolve_spec_value spec.name spec.name_from_arg (args_of job)),
    )
    | inr n ↦ elim (Bool-cases (spec.result == "table")) [
      | inl y ↦
          let (job', e, r) =
            exec_table-returns c cache spec namespace
              (resolve_spec_value spec.selector spec.selector_from_arg (args_of job)) in
          (finished job', rw (n, exec_result) (rw y (bind_ok _ e)), r)
      | inr m ↦ (
        fail (str_append "unsupported cache result type " spec.result) job,
        rw (n, exec_result) (rw m refl),
        failed _,
      )
    ]
  ]

  exec_watched-returns :
      (c : Calls) (spec : CacheSpec) (namespace : String) (r : Option String) (w : Watch)
      → (job' : CJob) × (exec_watched c spec namespace job (ok (r, w)) ≡ ok (job', w))
        × Ran job job'
  exec_watched-returns c spec namespace (some e) w = (fail e job, refl, failed e)
  exec_watched-returns c spec namespace none w =
      let (job', e, r) = exec_result-returns c spec namespace w.cache in (job', bind_ok _ e, r)

outcome-cases : {A : Type 0} (x : Outcome A) → (x ≡ panic) ⊎ ((a : A) × (x ≡ ok a))
outcome-cases panic = inl refl
outcome-cases (ok a) = inr (a, refl)

-- ensureWatching panics only where the map of what is warmed is nil
ensure_watching-calm :
    (now : ℕ) (start : Gvr → String → Started) (gvr namespace : String) (w : Watch)
    (m : Dict String Bool)
    → w.warmed ≡ some m
    → ensure_watching now start gvr namespace w ≢ panic
unfolding ensure_watching start_watching once_for_key mark_warmed
ensure_watching-calm now start gvr namespace w m e h = ground (arith, e, h)

module _ (c : Calls) (job : CJob) (clean : job.error ≡ "") (w : Watch) (m : Dict String Bool)
    (warm : w.warmed ≡ some m) where
  exec_spec-returns :
      (what : String) (o : Option CacheSpec)
      → (job' : CJob) × (w' : Watch) × (exec_spec c what o job w ≡ ok (job', w')) × Ran job job'
  exec_spec-returns what none = (fail (c.parse_error what) job, w, refl, failed _)
  exec_spec-returns what (some spec) =
      let namespace = resolve_spec_value spec.namespace spec.namespace_from_arg (args_of job) in
      elim (outcome-cases (ensure_watching c.now c.start spec.gvr namespace w)) [
        | inl p ↦ absurd (ensure_watching-calm c.now c.start spec.gvr namespace w m warm p)
        | inr ((r, v), e) ↦
            let (job', f, ran) =
              exec_watched-returns job ((string_eq.same_iff job.error "").1 clean) c spec namespace
                r v in
            (job', v, ap (exec_watched c spec namespace job) e ∙ f, ran)
      ]

  exec_poll-returns :
      (x : String ⊎ (String × Bool))
      → (job' : CJob) × (w' : Watch) × (exec_poll c x job w ≡ ok (job', w')) × Ran job job'
  exec_poll-returns (inl e) = (fail e job, w, refl, failed e)
  exec_poll-returns (inr (what, is_table)) =
      exec_spec-returns what (parse_cache_spec c.decode c.to_lower c.to_upper (some is_table) what)

  exec_connected-returns :
      (x : Option String)
      → (job' : CJob) × (w' : Watch) × (exec_connected c x job w ≡ ok (job', w')) × Ran job job'
  exec_connected-returns (some e) = (fail e job, w, refl, failed e)
  exec_connected-returns none = exec_poll-returns (c.poll job.pollaris_name job.job_name)

  -- Exec of a job that starts without an error, on a runtime that was initialised, returns: the job failed,
  -- with one error more and the result that it had, or it has a result and no errors in a row; an encoder
  -- whose error has no text counts as no error.
  pub exec-returns : (job' : CJob) × (w' : Watch) × (exec c job w ≡ ok (job', w')) × Ran job job'
  unfolding exec
  exec-returns = exec_connected-returns c.connect
