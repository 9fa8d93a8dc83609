-- ===== src/Cadence.antt =====
-- go/collector/service/JobCadence.go, and `cloneCadence` of JobsQueue.go
pub mod Slices
pub mod Bounds
use l8collector.Prelude.{
  ℕ, zero, ◌≡◌, Bool, true, false, ◌&&◌, Option, none, some, List, [], length, get_elem?, set,
  replicate, Outcome, ok, panic, ◌>>=◌, ◌==◌, if◌then◌else◌,
}
use l8collector.Prelude.Int.{ℤ, pos, negsuc, ◌+ℤ◌, leb_ℤ, int_eq}
use l8collector.Types.{CadencePlan, CJob}

-- xs[i] on a slice, at a signed index
unfoldable pub index {ℓ} : {A : Type ℓ} → List A → ℤ → Outcome A
index xs (pos i) = elim (get_elem? xs i) [ none ↦ panic | some x ↦ ok x ]
index xs (negsuc i) = panic

-- xs[i] = v after xs[i] was read
unfoldable pub write {ℓ} : {A : Type ℓ} → List A → ℤ → A → List A
write xs (pos i) v = set xs i v
write xs (negsuc i) v = xs

-- rand.Int63n(n), given the number that the generator hands out
unfoldable pub int63n : (ℤ → ℤ) → ℤ → Outcome ℤ
int63n draw n = if leb_ℤ n (pos 0) then panic else ok (draw n)

abbrev pub slice_of : Option (List ℤ) → List ℤ
slice_of none = []
slice_of (some xs) = xs

-- the first `if` of JobCadence
unfoldable pub init_startups : Bool → CadencePlan → CadencePlan
init_startups smooth c = elim c.startups [
  | none ↦
      if smooth then record c { startups = some (replicate (length c.cadences) (negsuc 0)) } else c
  | some s ↦ c
]

-- the branch that draws a start-up delay
unfoldable pub draw_startup : (ℤ → ℤ) → CadencePlan → Outcome (ℤ × CadencePlan)
draw_startup draw c = do
  n ← index c.cadences c.current
  d ← int63n draw n
  ok (d +ℤ n, record c { startups = some (write (slice_of c.startups) c.current d) })

abbrev pub steady : CadencePlan → Outcome (ℤ × CadencePlan)
steady c = index c.cadences c.current >>= λ n. ok (n, c)

unfoldable pub smooth_cadence : (ℤ → ℤ) → CadencePlan → Outcome (ℤ × CadencePlan)
smooth_cadence draw c = do
  s ← index (slice_of c.startups) c.current
  if s == negsuc 0 then draw_startup draw c else steady c

unfoldable pub job_cadence : Bool → (ℤ → ℤ) → CadencePlan → Outcome (ℤ × CadencePlan)
job_cadence smooth draw c =
    let c' = init_startups smooth c in if smooth then smooth_cadence draw c' else steady c'

unfoldable pub clone_plan : CadencePlan → CadencePlan
clone_plan src = record {
  enabled = src.enabled;
  current = src.current;
  cadences = src.cadences;
  startups = none;
}

unfoldable pub clone_cadence : Option CadencePlan → Option CadencePlan
unfolding clone_plan
clone_cadence none = none
clone_cadence (some src) = some (clone_plan src)
