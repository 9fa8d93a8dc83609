-- ===== src/Kube/Runtime/Channels.antt =====
-- Closing and signalling of many channels.
use l8collector.Prelude.{
  if_no, ℕ, ◌≡◌, ◌<◌, ◌≤◌, ◌↔◌, refl, ◌∙◌, sym, ap, subst, true, false, Bool-cases, none, some,
  Option, List, [], ◌∷◌, ok, bind_ok, arith, In, Distinct, inl, inr, ◌==◌, if◌then◌else◌, nat_eq,
  panic,
}
use l8collector.Kube.Runtime.{
  Channel, set_channel, close, signal, close_all, signal_all, close_stop, has_channel, without,
}

unfoldable pub AllOpen : List ℕ → (ℕ → Channel) → Type 0
AllOpen xs channels = (a : ℕ) → In a xs → (channels a).closed ≡ false

pub has_channel_iff : (a : ℕ) (xs : List ℕ) → (has_channel a xs ≡ true) ↔ In a xs
unfolding has_channel
has_channel_iff a [] = ((λ e. absurd (cc)), λ i. absurd i)
has_channel_iff a (x ∷ xs) = (
  λ e. elim (Bool-cases (a == x)) [
    | inl s ↦ inl (sym ((nat_eq.same_iff a x).0 s))
    | inr n ↦ inr ((has_channel_iff a xs).0 (sym (rw n refl) ∙ e))
  ],
  λ i. elim i [
    | inl s ↦ ground (arith, nat_eq.same_iff a x)
    | inr m ↦ ground (arith, (has_channel_iff a xs).1 m)
  ],
)

pub In-without : (a b : ℕ) (xs : List ℕ) → In b (without a xs) → In b xs
unfolding without
In-without a b [] i = i
In-without a b (x ∷ xs) i = elim (Bool-cases (a == x)) [
  | inl s ↦ inr (In-without a b xs (rw s at i))
  | inr n ↦ elim (rw n at i) [ inl e ↦ inl e | inr j ↦ inr (In-without a b xs j) ]
]

pub without-In : (a b : ℕ) (xs : List ℕ) → (a == b) ≡ false → In b xs → In b (without a xs)
unfolding without
without-In a b (x ∷ xs) d i = elim (Bool-cases (a == x)) [
  | inl s ↦ rw s (elim i [
    | inl e ↦ absurd (ground (arith, s, d, e, nat_eq.same_iff a x, nat_eq.same_iff a b))
    | inr m ↦ without-In a b xs d m
  ])
  | inr n ↦ rw n (elim i [ inl e ↦ inl e | inr m ↦ inr (without-In a b xs d m) ])
]
without-In a b [] d i = i

pub Distinct-without : (a : ℕ) (xs : List ℕ) → Distinct xs → Distinct (without a xs)
unfolding without
Distinct-without a [] d = d
Distinct-without a (x ∷ xs) d = elim (Bool-cases (a == x)) [
  | inl s ↦ rw s (Distinct-without a xs d.1)
  | inr n ↦ rw n ((λ m. d.0 (In-without a x xs m)), Distinct-without a xs d.1)
]

pub not_In-without : (a : ℕ) (xs : List ℕ) → ¬ In a (without a xs)
unfolding without
not_In-without a [] i = i
not_In-without a (x ∷ xs) i = elim (Bool-cases (a == x)) [
  | inl s ↦ not_In-without a xs (rw s at i)
  | inr n ↦ elim (rw n at i) [
    | inl e ↦ absurd (ground (arith, n, e, nat_eq.same_iff a x))
    | inr j ↦ not_In-without a xs j
  ]
]

unfoldable pub closed_at : ℕ → (ℕ → Channel) → ℕ → Channel
closed_at a channels =
    set_channel a (record { signalled = (channels a).signalled; closed = true }) channels

unfoldable pub signalled_at : ℕ → (ℕ → Channel) → ℕ → Channel
signalled_at a channels =
    set_channel a (record { signalled = true; closed = (channels a).closed }) channels

pub close-open :
    (a : ℕ) (channels : ℕ → Channel)
    → (channels a).closed ≡ false
    → close a channels ≡ ok (closed_at a channels)
unfolding close closed_at
close-open a channels e = if_no panic e

signal-open :
    (a : ℕ) (channels : ℕ → Channel)
    → (channels a).closed ≡ false
    → signal a channels ≡ ok (signalled_at a channels)
unfolding signal signalled_at
signal-open a channels e = if_no panic e

-- the channels after those of the list are closed
pub close_all-returns :
    (xs : List ℕ) (channels : ℕ → Channel)
    → Distinct xs
    → AllOpen xs channels
    → (cs : ℕ → Channel) × (close_all xs channels ≡ ok cs)
      × ((b : ℕ) → (cs b).closed ≡ (if has_channel b xs then true else (channels b).closed))
unfolding close_all has_channel AllOpen closed_at
close_all-returns [] channels d o = (channels, refl, λ b. refl)
close_all-returns (x ∷ xs) channels d o =
    let channels' = closed_at x channels in
    let (cs, e, c) = close_all-returns xs channels' d.1 (others x xs channels d.0 o) in
    (
      cs,
      bind_ok _ (close-open x channels (o x (inl refl))) ∙ e,
      λ b. ground (arith, c b, nat_eq.same_iff b x),
    )
  where
    others :
        (x : ℕ) (xs : List ℕ) (channels : ℕ → Channel)
        → ¬ In x xs
        → ((a : ℕ) → In a (x ∷ xs) → (channels a).closed ≡ false)
        → (a : ℕ) → In a xs
        → (closed_at x channels a).closed ≡ false
    others x xs channels n o a i = elim (Bool-cases (a == x)) [
      | inl s ↦ absurd (n (subst (λ z. In z xs) ((nat_eq.same_iff a x).0 s) i))
      | inr d ↦ rw d (o a (inr i))
    ]

-- the open channels of the list have a signal, and nothing else has changed
pub signal_all-returns :
    (xs : List ℕ) (channels : ℕ → Channel)
    → AllOpen xs channels
    → (cs : ℕ → Channel) × (signal_all xs channels ≡ ok cs)
      × ((b : ℕ) → (cs b).closed ≡ (channels b).closed)
      × ((b : ℕ) → (cs b).signalled ≡ (if has_channel b xs then true else (channels b).signalled))
unfolding signal_all has_channel AllOpen signalled_at
signal_all-returns [] channels o = (channels, refl, (λ b. refl), λ b. refl)
signal_all-returns (x ∷ xs) channels o =
    let channels' = signalled_at x channels in
    let (cs, e, c, g) = signal_all-returns xs channels' (λ a i. same x a channels ∙ o a (inr i)) in
    (
      cs,
      bind_ok _ (signal-open x channels (o x (inl refl))) ∙ e,
      (λ b. c b ∙ same x b channels),
      λ b. ground (arith, g b, nat_eq.same_iff b x),
    )
  where
    same :
        (x b : ℕ) (channels : ℕ → Channel)
        → (signalled_at x channels b).closed ≡ (channels b).closed
    same x b channels = elim (Bool-cases (b == x)) [
      | inl s ↦ rw s (ap (λ z. (channels z).closed) (sym ((nat_eq.same_iff b x).0 s)))
      | inr d ↦ rw d refl
    ]

pub closed_at-other :
    (a b : ℕ) (channels : ℕ → Channel)
    → ¬ (b ≡ a)
    → (channels b).closed ≡ false
    → (closed_at a channels b).closed ≡ false
unfolding closed_at
closed_at-other a b channels n e = elim (Bool-cases (b == a)) [
  | inl y ↦ absurd (n ((nat_eq.same_iff b a).0 y))
  | inr d ↦ rw d e
]

-- the channels after the stop channel is closed, which is no subscriber
pub close_stop-returns :
    (o : Option ℕ) (xs : List ℕ) (n : ℕ) (channels : ℕ → Channel)
    → ((a : ℕ) → o ≡ some a → (a < n) × ¬ In a xs)
    → (cs : ℕ → Channel) × (close_stop o channels ≡ ok cs)
      × ((b : ℕ) → In b xs → (channels b).closed ≡ false → (cs b).closed ≡ false)
      × ((b : ℕ) → n ≤ b → (channels b).closed ≡ false → (cs b).closed ≡ false)
unfolding close_stop closed_at
close_stop-returns none xs n channels h = (channels, refl, (λ b m e. e), λ b le e. e)
close_stop-returns (some a) xs n channels h = elim (Bool-cases (channels a).closed) [
  | inl y ↦ (channels, rw y refl, (λ b m e. e), λ b le e. e)
  | inr d ↦ (
    closed_at a channels,
    rw (d, close_stop) refl,
    (λ b m e. closed_at-other a b channels (λ q. (h a refl).1 (subst (λ z. In z xs) q m)) e),
    λ b le e. closed_at-other a b channels (λ q. omega (arith, q, le, (h a refl).0)) e,
  )
]
