-- ===== src/Ssh/Session.antt =====
-- Commands on a session that was closed and opened again: go/collector/protocols/ssh/Ssh.go.
use l8collector.Prelude.{
  ℕ, suc, ◌≡◌, refl, ◌∙◌, ap, true, false, Bool-cases, ◌||◌, none, some, List, [], ◌∷◌, ◌++◌, drop,
  Outcome, ok, ◌>>=◌, bind_ok, inl, inr, ltb, leb, if◌then◌else◌, arith, panic, map, if_yes, if_no,
  All,
}
use l8collector.Types.{CJob}
use l8collector.Text.Bytes.{starts_with, index_of, trim_byte}
use l8collector.Ssh.{
  Bytes, SshCollector, Reply, opened, start_shell, connect, disconnect, has_prompt, wait, heard,
  exec_command, exec_opened, exec, exec_written, before_prompt, answer_start, clean, finished,
  exec_job,
}

-- The network is well: the device takes the connection and the command.
pub record IsWell (r : Reply) : Type 0 where
  pub dials : r.dial ≡ opened
  pub writes : r.write_error ≡ none

-- No reader runs, nor will one, and an open connection can be written to.
pub record IsMute (c : SshCollector) : Type 0 where
  pub stopped : c.running ≡ false
  pub unread : c.reading ≡ false
  pub writable : c.connected ≡ true → c.has_in ≡ true

disconnect-IsMute : (c : SshCollector) → IsMute (disconnect c)
unfolding disconnect
disconnect-IsMute c = record { stopped = refl; unread = refl; writable = λ e. absurd (cc) }

wait-silent :
    (prompts : List Bytes) (cycles : List Bytes) (idle : ℕ)
    → wait prompts (heard false cycles) [] idle 0 ≡ []
unfolding wait
wait-silent prompts [] idle = refl
wait-silent prompts (d ∷ ds) idle = elim (Bool-cases (has_prompt prompts [] 1 || leb 5 idle)) [
  | inl e ↦ rw (e, wait) refl
  | inr e ↦ rw (e, wait) (wait-silent prompts ds (suc idle))
]

unheard :
    (c : SshCollector) (cycles : List Bytes)
    → IsMute c
    → wait c.prompts (heard c.reading cycles) [] 0 0 ≡ []
unheard c cycles m =
    ap (λ b. wait c.prompts (heard b cycles) [] 0 0) m.unread ∙ wait-silent c.prompts cycles 0

exec_command_silent :
    (r : Reply) (cmd : Bytes) (c : SshCollector)
    → IsMute c
    → c.has_in ≡ true
    → IsWell r
    → (c' : SshCollector) × (exec_command r cmd c ≡ ok (inr [], c')) × IsMute c'
unfolding exec_command
exec_command_silent r [] c m i w = (c, (λ j. ok (inr (unheard c r.cycles m j), c)), m)
exec_command_silent r (b ∷ cmd) c m i w = (
  record c { written = c.written ++ (b ∷ cmd) ∷ (b'\n' ∷ []) ∷ [] },
  if_yes panic i ∙ ap (λ o. exec_written o r (b ∷ cmd) c) w.writes ∙ (λ j. ok (
    inr (unheard c r.cycles m j),
    record c { written = c.written ++ (b ∷ cmd) ∷ (b'\n' ∷ []) ∷ [] },
  )),
  record { stopped = m.stopped; unread = m.unread; writable = m.writable },
)

exec_silent :
    (r : Reply) (cmd : Bytes) (c : SshCollector)
    → IsMute c
    → IsWell r
    → (c' : SshCollector) × (exec r cmd c ≡ ok (inr [], c')) × IsMute c'
unfolding exec exec_opened start_shell connect
exec_silent r cmd c m w =
    let polled : SshCollector = record c { poll_once = true } in
    let shell : SshCollector =
      start_shell (record polled { has_client = true; has_session = true }) in
    elim (Bool-cases c.connected) [
      | inl y ↦
          let (c', e, m') =
            exec_command_silent r cmd polled
              (record { stopped = m.stopped; unread = m.unread; writable = m.writable })
              (m.writable y) w in
          (c', if_yes _ y ∙ e, m')
      | inr n ↦
          let (c', e, m') =
            exec_command_silent r cmd shell
              (record { stopped = m.stopped; unread = m.stopped; writable = λ x. refl }) refl w in
          (c', if_no _ n ∙ bind_ok (exec_opened r cmd) (ap (λ d. connect d polled) w.dials) ∙ e, m')
    ]

before_prompt-nil : (prompts : List Bytes) → before_prompt prompts [] ≡ []
unfolding before_prompt index_of
before_prompt-nil [] = refl
before_prompt-nil (p ∷ ps) = elim (Bool-cases (starts_with p [])) [
  | inl y ↦ rw (y, before_prompt) refl
  | inr n ↦ rw (n, before_prompt) (before_prompt-nil ps)
]

clean-nil : (what : Bytes) (prompts : List Bytes) → clean what prompts [] ≡ []
unfolding clean trim_byte
clean-nil what prompts =
    ap (λ a. before_prompt prompts (trim_byte b'\r' (trim_byte b' ' (trim_byte b'\n' a))))
      (short (answer_start what []))
    ∙ before_prompt-nil prompts
  where
    short : (n : ℕ) → (if ltb n 0 then drop {A = ℕ} n [] else []) ≡ []
    short n = ground arith

-- The jobs of a list, one after the other, each with what the network answers.
unfoldable pub exec_jobs :
    (Bytes → List ℕ)
    → List (Bytes × Reply × CJob)
    → SshCollector
    → Outcome (List CJob × SshCollector)
unfolding exec_job
exec_jobs encode [] c = ok ([], c)
exec_jobs encode ((what, r, job) ∷ jobs) c = exec_job encode (some what) r job c >>= λ p.
    exec_jobs encode jobs p.1 >>= λ q. ok (p.0 ∷ q.0, q.1)

-- what a silent device leaves of a job
abbrev pub emptied : (Bytes → List ℕ) → CJob → CJob
emptied encode job = record job { error_count = 0; result = some (encode []) }

exec_job_silent :
    (encode : Bytes → List ℕ) (what : Bytes) (r : Reply) (job : CJob) (c : SshCollector)
    → IsMute c
    → IsWell r
    → (c' : SshCollector) × (exec_job encode (some what) r job c ≡ ok (emptied encode job, c'))
      × IsMute c'
unfolding exec_job
exec_job_silent encode what r job c m w =
    let (c', e, m') = exec_silent r what c m w in
    (
      c',
      ap (finished encode what job) e ∙ (λ j. ok (
        record job { error_count = 0; result = some (encode (clean-nil what c'.prompts j)) },
        c',
      )),
      m',
    )

exec_jobs_silent :
    (encode : Bytes → List ℕ) (jobs : List (Bytes × Reply × CJob)) (c : SshCollector)
    → IsMute c
    → All (λ j. IsWell j.1) jobs
    → (c' : SshCollector) × (exec_jobs encode jobs c ≡ ok (map (λ j. emptied encode j.2) jobs, c'))
unfolding exec_jobs
exec_jobs_silent encode [] c m w = (c, refl)
exec_jobs_silent encode ((what, r, job) ∷ jobs) c m w =
    let (c1, e, m1) = exec_job_silent encode what r job c m w.0 in
    let (c2, f) = exec_jobs_silent encode jobs c1 m1 w.1 in (c2, bind_ok _ e ∙ bind_ok _ f)

-- After Disconnect the collector connects again for the next job, but no reader runs: whatever the device
-- sends, each job that follows has an empty result, and no error is counted.
pub exec_jobs-disconnect :
    (encode : Bytes → List ℕ) (jobs : List (Bytes × Reply × CJob)) (c : SshCollector)
    → All (λ j. IsWell j.1) jobs
    → (c' : SshCollector) × (exec_jobs encode jobs (disconnect c)
        ≡ ok (map (λ j. emptied encode j.2) jobs, c'))
exec_jobs-disconnect encode jobs c w =
    exec_jobs_silent encode jobs (disconnect c) (disconnect-IsMute c) w
