-- ===== src/Kube/Collecting.antt =====
-- Exec of collector/protocols/k8sclient/ClientGoCollector.go, with execMap and execTable.
mod Tabling
mod Running
mod Examples
use Prim.Native.String.{◌++◌ as str_append}
use l8collector.Prelude.{
  ℕ, suc, Bool, true, false, not, Option, none, some, List, [], ◌∷◌, String, ◌⊎◌, inl, inr, Outcome,
  ok, panic, ◌>>=◌, ◌==◌, if◌then◌else◌, string_eq,
}
use l8collector.Prelude.Dict.{Dict}
use l8collector.Types.{CJob}
use l8collector.Tables.{CTable, Bytes}
use l8collector.Kube.Value.{Value, Fields}
use l8collector.Kube.Gvr.{Gvr}
use l8collector.Kube.Cache.{CachedObject, Cache, get_object, list_objects, upsert}
use l8collector.Kube.Spec.{CacheSpec, parse_cache_spec, resolve_spec_value}
use l8collector.Kube.Watching.{Watch, Started, ensure_watching}
use l8collector.Kube.Results.{build_c_map, build_c_table}

-- What Exec calls outside these files. `connect` is the error of Connect, where the runtime is not connected;
-- `poll` the text of the poll and whether it is a table, or the error of its lookup; `parse_error` the message
-- of ParseCacheSpec for a text that it rejects; the encoders give bytes or an error.
pub record Calls : Type 0 where
  pub now : ℕ
  pub start : Gvr → String → Started
  pub connect : Option String
  pub poll : String → String → String ⊎ (String × Bool)
  pub decode : String → Option CacheSpec
  pub to_lower : String → String
  pub to_upper : String → String
  pub parse_error : String → String
  pub show : Value → String
  pub encode : Value → String ⊎ Bytes
  pub encode_map : Dict String Bytes → String ⊎ Bytes
  pub encode_table : CTable → String ⊎ Bytes

-- `job.Error = ...; job.ErrorCount++`
abbrev pub fail : String → CJob → CJob
fail e job = record job { error = e; error_count = suc job.error_count }

abbrev pub with_result : String ⊎ Bytes → CJob → CJob
with_result (inl e) job = fail e job
with_result (inr bytes) job = record job { result = bytes }

abbrev pub encoded_map : Calls → String ⊎ Dict String Bytes → CJob → CJob
encoded_map c (inl e) job = fail e job
encoded_map c (inr m) job = with_result (c.encode_map m) job

abbrev pub encoded_table : Calls → String ⊎ CTable → CJob → CJob
encoded_table c (inl e) job = fail e job
encoded_table c (inr t) job = with_result (c.encode_table t) job

abbrev pub map_of_item : Calls → String → CacheSpec → Option CachedObject → CJob → CJob
map_of_item c miss spec none job = fail miss job
map_of_item c miss spec (some o) job = encoded_map c (build_c_map c.encode (some o) spec.fields) job

unfoldable pub exec_map : Calls → Cache → CacheSpec → String → String → CJob → CJob
unfolding get_object build_c_map
exec_map c cache spec namespace name job =
    map_of_item c
      (str_append "cache miss for "
        (str_append spec.gvr (str_append "/" (str_append namespace (str_append "/" name)))))
      spec (get_object spec.gvr namespace name cache) job

abbrev pub table_result : Calls → CJob → Outcome (String ⊎ CTable) → Outcome CJob
table_result c job panic = panic
table_result c job (ok t) = ok (encoded_table c t job)

unfoldable pub exec_table : Calls → Cache → CacheSpec → String → String → CJob → Outcome CJob
unfolding list_objects build_c_table
exec_table c cache spec namespace selector job = table_result c job (
    build_c_table c.encode (list_objects c.show spec.gvr namespace selector cache) spec.fields
      spec.column_names)

abbrev pub args_of : CJob → Dict String String
args_of job = or_empty job.arguments
  where
    or_empty : Option (Dict String String) → Dict String String
    or_empty none = []
    or_empty (some args) = args

-- the end of Exec: a job without an error has no errors in a row
abbrev pub finished : CJob → CJob
finished job = if job.error == "" then record job { error_count = 0 } else job

-- the switch of Exec
unfoldable pub exec_result : Calls → CacheSpec → String → Cache → CJob → Outcome CJob
unfolding exec_map exec_table resolve_spec_value
exec_result c spec namespace cache job =
    if spec.result == "map"
    then ok (
        finished (
          exec_map c cache spec namespace
            (resolve_spec_value spec.name spec.name_from_arg (args_of job)) job))
    else if spec.result == "table"
    then (exec_table c cache spec namespace
          (resolve_spec_value spec.selector spec.selector_from_arg (args_of job)) job
        >>= λ done. ok (finished done))
    else ok (fail (str_append "unsupported cache result type " spec.result) job)

-- after ensureWatching
abbrev pub exec_watched :
    Calls → CacheSpec → String → CJob → Outcome (Option String × Watch) → Outcome (CJob × Watch)
exec_watched c spec namespace job panic = panic
exec_watched c spec namespace job (ok (some e, w)) = ok (fail e job, w)
exec_watched c spec namespace job (ok (none, w)) =
    exec_result c spec namespace w.cache job >>= λ done. ok (done, w)

abbrev pub exec_spec : Calls → String → Option CacheSpec → CJob → Watch → Outcome (CJob × Watch)
exec_spec c what none job w = ok (fail (c.parse_error what) job, w)
exec_spec c what (some spec) job w =
    let namespace = resolve_spec_value spec.namespace spec.namespace_from_arg (args_of job) in
    exec_watched c spec namespace job (ensure_watching c.now c.start spec.gvr namespace w)

abbrev pub exec_poll : Calls → String ⊎ (String × Bool) → CJob → Watch → Outcome (CJob × Watch)
exec_poll c (inl e) job w = ok (fail e job, w)
exec_poll c (inr (what, is_table)) job w =
    exec_spec c what (parse_cache_spec c.decode c.to_lower c.to_upper (some is_table) what) job w

abbrev pub exec_connected : Calls → Option String → CJob → Watch → Outcome (CJob × Watch)
exec_connected c (some e) job w = ok (fail e job, w)
exec_connected c none job w = exec_poll c (c.poll job.pollaris_name job.job_name) job w

-- Exec; where the runtime is connected `connect` is none, and else it has a client if Connect has no error
unfoldable pub exec : Calls → CJob → Watch → Outcome (CJob × Watch)
unfolding exec_result ensure_watching parse_cache_spec resolve_spec_value
exec c job w = exec_connected c c.connect job w
