-- ===== src/Change.antt =====
-- Change detection: go/collector/service/hash.go, MarkStart and MarkEnded of JobsQueue.go, and
-- jobHasChange of HostCollector.go.
pub mod Detection
mod Examples
use Prim.Native.Nat.{bit_xor}
use l8collector.Prelude.{
  ℕ, zero, ◌*◌, ◌-◌, ◌%◌, ◌^◌, Bool, true, false, not, ◌&&◌, Option, none, some, List, [], ◌∷◌,
  length, Outcome, ok, panic, ◌>>=◌, ◌==◌, if◌then◌else◌, nat_eq,
}
use l8collector.Prelude.Int.{ℤ, pos, negsuc, ◌+ℤ◌, ◌-ℤ◌, ltb_ℤ}
use l8collector.Types.{CadencePlan, CJob}

-- hash/fnv of the standard library: FNV-1a on 64 bits
abbrev pub fnv_offset : ℕ
fnv_offset = 14695981039346656037

abbrev pub fnv_prime : ℕ
fnv_prime = 1099511628211

unfoldable pub fnv1a : ℕ → List ℕ → ℕ
fnv1a h [] = h
fnv1a h (b ∷ bs) = fnv1a (bit_xor h b * fnv_prime % 2 ^ 64) bs

unfoldable pub hash_bytes : Option (List ℕ) → ℕ
hash_bytes none = 0
hash_bytes (some []) = 0
hash_bytes (some (b ∷ bs)) = fnv1a fnv_offset (b ∷ bs)

unfoldable pub mark_start : ℤ → CJob → CJob
mark_start now job =
    let hashed : CJob =
      if job.error_count == 0
      then record job { last_result_hash = hash_bytes job.result }
      else job in
    record hashed { started = now; ended = pos 0; result = none; error = "" }

unfoldable pub mark_ended : ℤ → CJob → CJob
mark_ended now job = record job { ended = now }

abbrev pub is_nil : Option (List ℕ) → Bool
is_nil none = true
is_nil (some _) = false

-- int32(len(xs) - 1)
abbrev pub last_index : List ℤ → ℤ
last_index xs = pos (length xs) -ℤ pos 1

-- `job.Cadence.Current++`, where there is a result and a slower cadence
unfoldable pub slow_down : CJob → Outcome CJob
slow_down job = elim job.result [
  | none ↦ ok job
  | some _ ↦ elim job.cadence [
    | none ↦ panic
    | some plan ↦ ok (
        if ltb_ℤ plan.current (last_index plan.cadences)
        then record job { cadence = some (record plan { current = plan.current +ℤ pos 1 }) }
        else job)
  ]
]

-- the comparison with the hash of the previous result
unfoldable pub differs : CJob → Bool
differs job =
    if job.last_result_hash == 0 && is_nil job.result
    then false
    else if job.last_result_hash == 0 && not (is_nil job.result)
    then true
    else if is_nil job.result
    then true
    else not (hash_bytes job.result == job.last_result_hash)

unfoldable pub job_has_change : CJob → Outcome (Bool × CJob)
job_has_change job =
    if job.always then ok (true, job) else slow_down job >>= λ job'. ok (differs job', job')
