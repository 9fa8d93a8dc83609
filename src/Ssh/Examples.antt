-- ===== src/Ssh/Examples.antt =====
-- The theorems on SSH sessions at concrete inputs.
use l8collector.Prelude.{ℕ, ◌≡◌, refl, false, none, List, [], ◌∷◌, ◌++◌, map, ok, arith}
use l8collector.Types.{CJob, empty_job}
use l8collector.Text.Bytes.{index_of, trim_byte}
use l8collector.Ssh.{Bytes, SshCollector, Reply, opened, init, disconnect, wait, clean}
use l8collector.Ssh.Cleaning.{IsAnswer, clean_answer}
use l8collector.Ssh.Session.{IsWell, exec_jobs, emptied, exec_jobs-disconnect}

abbrev prompt : Bytes
prompt = b'#' ∷ []

abbrev show : Bytes
show = b's' ∷ b'h' ∷ []

abbrev up : Bytes
up = b'u' ∷ b'p' ∷ b'\n' ∷ []

-- "ok" in front of the answer, as long as the command
abbrev status : Bytes
status = b'o' ∷ b'k' ∷ []

abbrev reply : Reply
reply = record { dial = opened; write_error = none; cycles = (show ++ b'\n' ∷ up ++ prompt) ∷ [] }

abbrev closed : SshCollector
closed = init [] false []

abbrev jobs : List (Bytes × Reply × CJob)
jobs = (show, reply, empty_job) ∷ (show, reply, empty_job) ∷ []

abbrev encode : Bytes → List ℕ
encode b = b

wait_test :
    wait (prompt ∷ []) ((show ++ b'\n' ∷ []) ∷ [] ∷ (up ++ prompt) ∷ show ∷ []) [] 0 0
    ≡ show ++ b'\n' ∷ (up ++ prompt)
unfolding wait
wait_test = refl

reply-IsWell : IsWell reply
reply-IsWell = record { dials = refl; writes = refl }

up-IsAnswer : IsAnswer prompt up
unfolding index_of trim_byte
up-IsAnswer = record { trimmed = (refl, refl, refl); ends = refl; present = omega arith }

clean_answer_example :
    (clean show (prompt ∷ []) (show ++ b'\n' ∷ (up ++ prompt)) ≡ up)
    × (clean show (prompt ∷ []) (status ++ (up ++ prompt)) ≡ up)
unfolding index_of
clean_answer_example = clean_answer show b'\n' status up prompt [] up-IsAnswer refl refl

exec_jobs-disconnect_example :
    (c' : SshCollector) × (exec_jobs encode jobs (disconnect closed)
      ≡ ok (map (λ j. emptied encode j.2) jobs, c'))
exec_jobs-disconnect_example =
    exec_jobs-disconnect encode jobs closed (reply-IsWell, (reply-IsWell, tt))
