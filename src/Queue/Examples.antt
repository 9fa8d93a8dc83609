-- ===== src/Queue/Examples.antt =====
-- The theorems on the job queue at concrete inputs.
use l8collector.Prelude.{
  ℕ, ◌≡◌, refl, true, Option, some, [], ◌∷◌, In, ◌⊎◌, inl, arith, if◌then◌else◌, ◌==◌, nat_eq, ok,
  string_eq, suc, ◌≢◌, ◌>>=◌,
}
use l8collector.Prelude.Int.{pos, ◌-ℤ◌}
use l8collector.Prelude.Dict
use l8collector.Types.{CJob, empty_job}
use l8collector.Cadence.{index, init_startups, job_cadence}
use l8collector.Queue.{
  Heap, JobsQueue, visit, visit_plan, scan, move_to_last, pop, pop_live, expedite, expedite_all,
  insert_one, job_key, store,
}
use l8collector.Queue.Visiting.{is_due}
use l8collector.Queue.Selection.{SameJobs, RunsOn}
use l8collector.Queue.Rotation.{IsOpen, Idle, TakesFirst, pop_first_due}
use l8collector.Queue.Fairness.{Turns, stop, turn, round_robin}
use l8collector.Queue.Closing.{insert_one-collides}
use l8collector.Queue.Expediting.{expedite_due}
use l8collector.Queue.Samples.{
  plan, overdue, recent, heap, queue_of, world, world-IsWorld, plan-IsPlan, overdue-IsRunnable,
  recent-IsRunnable, one_job-IsQueue, empty_queue,
}

two-IsOpen : IsOpen world (queue_of (1 ∷ 0 ∷ [])) heap
two-IsOpen = record {
  serviced = refl;
  running = refl;
  distinct = ground arith;
  runnable = (recent-IsRunnable, (overdue-IsRunnable, tt));
}

abbrev seen : Heap
seen = store (store heap 1 recent) 0 overdue

-- The recent job is passed over, and the overdue one goes behind it.
pop_overdue :
    pop world (some (queue_of (1 ∷ 0 ∷ []))) heap
    ≡ ok (some 0, pos 3, some (queue_of (1 ∷ 0 ∷ [])), seen)
unfolding pop pop_live scan visit visit_plan job_cadence init_startups index move_to_last ◌-ℤ◌
pop_overdue = refl

pop_front :
    pop world (some (queue_of (0 ∷ 1 ∷ []))) heap
    ≡ ok (some 0, pos 999999, some (queue_of (1 ∷ 0 ∷ [])), store heap 0 overdue)
unfolding pop pop_live scan visit visit_plan job_cadence init_startups index move_to_last ◌-ℤ◌
pop_front = refl

pop_first_due_example :
    (k : Heap) × SameJobs heap k
    × RunsOn world heap k
    × (Idle world (queue_of (1 ∷ 0 ∷ [])) heap k ⊎ TakesFirst world (queue_of (1 ∷ 0 ∷ [])) heap k)
pop_first_due_example = pop_first_due world (queue_of (1 ∷ 0 ∷ [])) heap world-IsWorld two-IsOpen

overdue_due : is_due world 0 overdue ≡ true
unfolding is_due visit visit_plan job_cadence init_startups index ◌-ℤ◌
overdue_due = refl

pop_alone :
    pop world (some (queue_of (0 ∷ []))) heap
    ≡ ok (some 0, pos 999999, some (queue_of (0 ∷ [])), store heap 0 overdue)
unfolding pop pop_live scan visit visit_plan job_cadence init_startups index move_to_last ◌-ℤ◌
pop_alone = refl

index_first : index plan.cadences plan.current ≡ ok (pos 3)
unfolding index
index_first = refl

expedite_alone :
    expedite (some (queue_of (0 ∷ []))) heap ≡ ok (store heap 0 (record overdue { ended = pos 0 }))
unfolding expedite expedite_all
expedite_alone = refl

abbrev both_due : Heap
both_due = record {
  next = 2;
  cell = λ a. if a == 0 then overdue else record recent { ended = pos 90 };
}

both-IsOpen : IsOpen world (queue_of (1 ∷ 0 ∷ [])) both_due
both-IsOpen = record {
  serviced = refl;
  running = refl;
  distinct = ground arith;
  runnable = ((plan, refl, plan-IsPlan), (overdue-IsRunnable, tt));
}

front-IsOpen : IsOpen world (queue_of (0 ∷ 1 ∷ [])) heap
front-IsOpen = record {
  serviced = refl;
  running = refl;
  distinct = ground arith;
  runnable = (overdue-IsRunnable, (recent-IsRunnable, tt));
}

pop_other :
    pop world (some (queue_of (1 ∷ 0 ∷ []))) both_due
    ≡ ok (
      some 1,
      pos 999999,
      some (queue_of (0 ∷ 1 ∷ [])),
      store both_due 1 (record recent { ended = pos 90 }),
    )
unfolding pop pop_live scan visit visit_plan job_cadence init_startups index move_to_last ◌-ℤ◌
pop_other = refl

-- Two Pops, with both jobs due at the first.
two_turns : Turns 0 (queue_of (1 ∷ 0 ∷ [])) (some 1 ∷ some 0 ∷ [])
two_turns =
    turn [] world both_due (store both_due 1 (record recent { ended = pos 90 })) (some 1)
      (pos 999999) world-IsWorld both-IsOpen overdue_due pop_other
      (turn [] world heap (store heap 0 overdue) (some 0) (pos 999999) world-IsWorld front-IsOpen
        overdue_due pop_front stop)

round_robin_example : In {A = Option ℕ} (some 0) (some 1 ∷ some 0 ∷ [])
round_robin_example =
    round_robin 0 (queue_of (1 ∷ 0 ∷ [])) (some 1 ∷ some 0 ∷ []) (1 ∷ []) [] two_turns refl
      (omega arith)

-- boot0 and 0systemMib run together as boot00 and systemMib do.
abbrev other : CJob
other = record empty_job { pollaris_name = "boot0"; job_name = "0systemMib"; cadence = some plan }

insert_one-collides_example :
    (q' : JobsQueue) × (h' : Heap) × ((insert_one overdue empty_queue heap
        >>= λ ((q1, h1) : JobsQueue × Heap). insert_one other q1 h1)
      ≡ ok (q', h'))
    × (q'.jobs ≡ heap.next ∷ [])
    × (h'.next ≡ suc heap.next)
    × (h'.cell heap.next ≡ record overdue { started = pos 0; ended = pos 0 })
    × ((a : ℕ) → a ≢ heap.next → h'.cell a ≡ heap.cell a)
unfolding job_key Dict.get
insert_one-collides_example =
    insert_one-collides overdue other plan plan empty_queue heap refl refl refl refl refl refl refl

expedite_due_example :
    is_due world 0 ((store heap 0 (record overdue { ended = pos 0 })).cell 0) ≡ true
expedite_due_example =
    expedite_due world (queue_of (0 ∷ [])) heap (store heap 0 (record overdue { ended = pos 0 })) 0
      plan (pos 3) refl one_job-IsQueue expedite_alone (inl refl) refl refl index_first
      (omega arith)
