-- ===== src/Cadence/Bounds.antt =====
-- JobCadence returns on a plan that is in order.
use l8collector.Prelude.{
  ◌≡◌, refl, sym, ◌∙◌, Bool-cases, Option-cases, ◌⊎◌, inl, inr, Bool, true, false, Option, none,
  some, length, replicate, length-replicate, All, List, ok, arith, ◌==◌,
}
use l8collector.Prelude.Int.{ℤ, pos, negsuc, ◌+ℤ◌, ◌≤ℤ◌, ◌<ℤ◌, int_laws, int_eq}
use l8collector.Types.{CadencePlan}
use l8collector.Cadence.{
  index, write, int63n, init_startups, draw_startup, smooth_cadence, job_cadence,
}
use l8collector.Cadence.Slices.{
  InRange, index-InRange, index-write, index-All, length-write, InRange-length,
}

abbrev pub FitsStartups : Option (List ℤ) → List ℤ → Type 0
FitsStartups none cs = Unit
FitsStartups (some ss) cs = length ss ≡ length cs

-- `current` is an index of `cadences`, the drawn delays are parallel to it, and a range that a number
-- is drawn from is not empty.
pub record IsPlan (smooth : Bool) (c : CadencePlan) : Type 0 where
  pub in_range : InRange c.current c.cadences
  pub fits : FitsStartups c.startups c.cadences
  pub positive : smooth ≡ true → All (λ n. pos 0 <ℤ n) c.cadences

-- The contract of rand.Int63n: 0 ≤ result < n.
abbrev pub IsDraw : (ℤ → ℤ) → Type 0
IsDraw draw = (n : ℤ) → pos 0 <ℤ n → (pos 0 ≤ℤ draw n) × (draw n <ℤ n)

pub init_startups-IsPlan :
    (smooth : Bool) (c : CadencePlan) → IsPlan smooth c → IsPlan smooth (init_startups smooth c)
unfolding init_startups
init_startups-IsPlan smooth c h = ground (arith, length-replicate (length c.cadences) (negsuc 0))

-- What a call returns: the interval, the plan that it leaves, and what the next call returns.
pub record Interval (smooth : Bool) (draw : ℤ → ℤ) (c : CadencePlan) (n m : ℤ) (c' : CadencePlan)
    : Type 0 where
  pub result : job_cadence smooth draw c ≡ ok (m, c')
  pub bounds : (m ≡ n) ⊎ (n ≤ℤ m) × (m <ℤ n +ℤ n)
  pub plan : IsPlan smooth c'
  pub settled : (draw' : ℤ → ℤ) → job_cadence smooth draw' c' ≡ ok (n, c')

module _ (draw : ℤ → ℤ) (c : CadencePlan) (n : ℤ) (at : index c.cadences c.current ≡ ok n) where
  steady-Interval : IsPlan false c → Interval false draw c n n c
  unfolding job_cadence init_startups
  steady-Interval h = record {
    result = ground arith;
    bounds = inl refl;
    plan = h;
    settled = λ draw'. ground arith;
  }

-- With the delays in place and smoothing on.
module _ (draw : ℤ → ℤ) (c : CadencePlan) (ss : List ℤ) (n s : ℤ)
    (at : index c.cadences c.current ≡ ok n) (delay : index ss c.current ≡ ok s)
    (e : c.startups ≡ some ss) where
  -- the level has its delay
  kept-Interval : (s == negsuc 0) ≡ false → IsPlan true c → Interval true draw c n n c
  unfolding job_cadence init_startups smooth_cadence
  kept-Interval k h = record {
    result = ground arith;
    bounds = inl refl;
    plan = h;
    settled = λ draw'. ground arith;
  }

  abbrev drawn : CadencePlan
  drawn = record c { startups = some (write ss c.current (draw n)) }

  -- the level draws its delay
  drawn-Interval :
      (s == negsuc 0) ≡ true
      → IsPlan true c
      → IsDraw draw
      → pos 0 <ℤ n
      → Interval true draw c n (draw n +ℤ n) drawn
  unfolding job_cadence init_startups smooth_cadence draw_startup int63n
  drawn-Interval k h d p = record {
    result = ground arith;
    bounds = inr (omega (int_laws, d n p), omega (int_laws, d n p));
    plan = record {
      in_range = h.in_range;
      fits = ground (arith, h.fits, length-write ss c.current (draw n));
      positive = h.positive;
    };
    settled = λ draw'. ground (
      arith,
      d n p,
      index-write ss c.current (draw n),
      InRange-length c.cadences ss c.current,
      h.in_range,
      h.fits,
    );
  }

job_cadence-init :
    (draw : ℤ → ℤ) (c : CadencePlan)
    → job_cadence true draw (init_startups true c) ≡ job_cadence true draw c
unfolding job_cadence init_startups
job_cadence-init draw c = ground arith

startups-init : (c : CadencePlan) → (ss : List ℤ) × ((init_startups true c).startups ≡ some ss)
unfolding init_startups
startups-init c = elim (Option-cases c.startups) [
  | inl e ↦ (replicate (length c.cadences) (negsuc 0), ground arith)
  | inr (ss, e) ↦ (ss, ground arith)
]

current-init :
    (c : CadencePlan) (n : ℤ)
    → index c.cadences c.current ≡ ok n
    → index (init_startups true c).cadences (init_startups true c).current ≡ ok n
unfolding init_startups
current-init c n at = ground arith

abbrev pub Outcomes : Bool → (ℤ → ℤ) → CadencePlan → ℤ → Type 0
Outcomes smooth draw c n = (m : ℤ) × (c' : CadencePlan) × Interval smooth draw c n m c'

smooth-Interval :
    (draw : ℤ → ℤ) (c : CadencePlan) (ss : List ℤ) (n : ℤ)
    → index c.cadences c.current ≡ ok n
    → c.startups ≡ some ss
    → IsPlan true c
    → IsDraw draw
    → Outcomes true draw c n
smooth-Interval draw c ss n at e h d =
    let (s, delay) =
      index-InRange ss c.current
        (InRange-length c.cadences ss c.current (ground (arith, h.fits)) h.in_range) in
    elim (Bool-cases (s == negsuc 0)) [
      | inl k ↦ (
        draw n +ℤ n,
        _,
        drawn-Interval draw c ss n s at delay e k h d
            (index-All (λ n. pos 0 <ℤ n) c.cadences c.current n (h.positive refl) at),
      )
      | inr k ↦ (n, c, kept-Interval draw c ss n s at delay e k h)
    ]

-- On a plan in order, whatever numbers are drawn, JobCadence does not panic. It returns the current
-- cadence, or with smoothing at most the double of it, leaves a plan in order, and any later call
-- returns exactly the current cadence.
pub job_cadence-Interval :
    (smooth : Bool) (draw : ℤ → ℤ) (c : CadencePlan)
    → IsPlan smooth c
    → IsDraw draw
    → (n : ℤ) × (index c.cadences c.current ≡ ok n) × Outcomes smooth draw c n
job_cadence-Interval false draw c h d =
    let (n, at) = index-InRange c.cadences c.current h.in_range in
    (n, at, (n, c, steady-Interval draw c n at h))
job_cadence-Interval true draw c h d =
    let c1 : CadencePlan = init_startups true c in
    let (n, at) = index-InRange c.cadences c.current h.in_range in
    let (ss, e) = startups-init c in
    let (m, c', r) =
      smooth-Interval draw c1 ss n (current-init c n at) e (init_startups-IsPlan true c h) d in
    (
      n,
      at,
      (
        m,
        c',
        record {
          result = sym (job_cadence-init draw c) ∙ r.result;
          bounds = r.bounds;
          plan = r.plan;
          settled = r.settled;
        },
      ),
    )
