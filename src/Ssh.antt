-- ===== src/Ssh.antt =====
-- go/collector/protocols/ssh/Ssh.go: a shell session on a device, and the answers of its commands. Texts are
-- bytes. What the network answers is a parameter: how a connection is opened (Dial), whether a write fails,
-- and what the device sends in each cycle in which a command waits (Reply).
mod Cleaning
mod Session
mod Examples
use l8collector.Prelude.{
  ℕ, zero, suc, ◌+◌, Bool, true, false, not, ◌||◌, ◌⊎◌, inl, inr, Option, none, some, List, [], ◌∷◌,
  ◌++◌, String, length, drop, take, Outcome, ok, panic, ◌>>=◌, leb, ltb, ◌==◌, if◌then◌else◌,
  nat_eq, string_eq,
}
use l8collector.Types.{CJob}
use l8collector.Text.Bytes.{index_of, count_of, trim_byte}

abbrev pub Bytes : Type 0
Bytes = List ℕ

-- `reading` says that the goroutine of `run` reads the output of the current session, and adds it to
-- the queue.
pub record SshCollector : Type 0 where
  pub prompts : List Bytes
  pub vt100 : Bool
  pub terminal_commands : List Bytes
  pub has_client : Bool
  pub has_session : Bool
  pub has_in : Bool
  pub written : List Bytes
  pub running : Bool
  pub reading : Bool
  pub connected : Bool
  pub poll_once : Bool

-- What opening a connection gives; the texts are those of the errors that the logger makes.
pub data Dial : Type 0 where
  no_credential : Dial
  dial_failed session_failed pty_failed shell_failed : String → Dial
  opened : Dial

-- Init: the prompt is "#" where the configuration has none
unfoldable pub init : List Bytes → Bool → List Bytes → SshCollector
init prompts vt100 commands = record {
  prompts = elim prompts [ [] ↦ (b'#' ∷ []) ∷ [] | p ∷ ps ↦ p ∷ ps ];
  vt100 = vt100;
  terminal_commands = commands;
  has_client = false;
  has_session = false;
  has_in = false;
  written = [];
  running = true;
  reading = false;
  connected = false;
  poll_once = false;
}

-- the end of Connect, after the shell was opened: the reader runs as long as `running` says
unfoldable pub start_shell : SshCollector → SshCollector
start_shell c = record c {
  has_in = true;
  written = c.written ++ c.terminal_commands;
  reading = c.running;
  connected = true;
}

-- Connect: an error, or none. A pseudo terminal is asked for only where the terminal is vt100.
unfoldable pub connect : Dial → SshCollector → Outcome (Option String × SshCollector)
unfolding start_shell
connect no_credential c = panic
connect (dial_failed e) c = ok (some e, c)
connect (session_failed e) c = ok (some e, record c { has_client = true })
connect (pty_failed e) c =
    let d : SshCollector = record c { has_client = true; has_session = true } in
    if c.vt100 then ok (some e, d) else ok (none, start_shell d)
connect (shell_failed e) c =
    ok (some e, record c { has_client = true; has_session = true; has_in = true })
connect opened c = ok (none, start_shell (record c { has_client = true; has_session = true }))

-- Disconnect; its reader ends, with the session that it reads
unfoldable pub disconnect : SshCollector → SshCollector
disconnect c = record c {
  running = false;
  reading = false;
  has_in = false;
  has_session = false;
  has_client = false;
  connected = false;
}

-- the loop of hasPrompt over the prompts
unfoldable pub some_prompt : List Bytes → Bytes → ℕ → Bool
unfolding count_of
some_prompt [] text count = false
some_prompt (p ∷ ps) text count =
    let rest = some_prompt ps text count in if leb count (count_of p text) then true else rest

-- hasPrompt
unfoldable pub has_prompt : List Bytes → Bytes → ℕ → Bool
unfolding some_prompt count_of
has_prompt (p ∷ []) text count = leb count (count_of p text)
has_prompt (p ∷ q ∷ []) text count = leb count (count_of p text) || leb count (count_of q text)
has_prompt ps text count = some_prompt ps text count

-- The device's part in one command: an error of a write, and what a reader would put in the queue, which a
-- command clears, in each cycle for which the timeout leaves time.
pub record Reply : Type 0 where
  pub dial : Dial
  pub write_error : Option String
  pub cycles : List Bytes

-- the loop of exec: it ends at a prompt, after five cycles without new bytes, or when the time is over
unfoldable pub wait : List Bytes → List Bytes → Bytes → ℕ → ℕ → Bytes
unfolding has_prompt
wait prompts [] text idle last = text
wait prompts (d ∷ ds) text idle last = elim (has_prompt prompts text 1 || leb 5 idle) [
  | true ↦ text
  | false ↦
      wait prompts ds (text ++ d) (if last == length (text ++ d) then suc idle else idle)
        (length (text ++ d))
]

-- what the command sees: without a reader nothing is added to the queue
abbrev pub heard : Bool → List Bytes → List Bytes
heard true cycles = cycles
heard false [] = []
heard false (d ∷ ds) = [] ∷ heard false ds

-- after the write of a command and its line end
abbrev pub exec_written :
    Option String → Reply → Bytes → SshCollector → Outcome ((String ⊎ Bytes) × SshCollector)
exec_written (some e) r cmd c = ok (inl e, c)
exec_written none r cmd c = ok (
  inr (wait c.prompts (heard c.reading r.cycles) [] 0 0),
  record c { written = c.written ++ cmd ∷ (b'\n' ∷ []) ∷ [] },
)

-- exec, after the connection: the text, or the error of a write
unfoldable pub exec_command :
    Reply → Bytes → SshCollector → Outcome ((String ⊎ Bytes) × SshCollector)
unfolding wait
exec_command r [] c = ok (inr (wait c.prompts (heard c.reading r.cycles) [] 0 0), c)
exec_command r (b ∷ cmd) c = if c.has_in then exec_written r.write_error r (b ∷ cmd) c else panic

-- exec, after a connection was asked for
unfoldable pub exec_opened :
    Reply → Bytes → Option String × SshCollector → Outcome ((String ⊎ Bytes) × SshCollector)
unfolding exec_command
exec_opened r cmd (some e, c) = ok (inl e, c)
exec_opened r cmd (none, c) = exec_command r cmd c

-- exec
unfoldable pub exec : Reply → Bytes → SshCollector → Outcome ((String ⊎ Bytes) × SshCollector)
unfolding connect exec_opened
exec r cmd c =
    let polled : SshCollector = record c { poll_once = true } in
    if c.connected
    then exec_opened r cmd (none, polled)
    else connect r.dial polled >>= λ p. exec_opened r cmd p

-- the text up to the first prompt of the list that is in it
unfoldable pub before_prompt : List Bytes → Bytes → Bytes
unfolding index_of
before_prompt [] text = text
before_prompt (p ∷ ps) text = elim (index_of p text) [
  | none ↦ before_prompt ps text
  | some i ↦ take i text
]

-- where the answer starts: strings.Index + len + 1, where strings.Index is -1 without an echo
unfoldable pub answer_start : Bytes → Bytes → ℕ
unfolding index_of
answer_start what text = elim (index_of what text) [
  | none ↦ length what
  | some i ↦ i + length what + 1
]

-- what Exec makes of the text
unfoldable pub clean : Bytes → List Bytes → Bytes → Bytes
unfolding answer_start trim_byte before_prompt
clean what prompts text =
    let start = answer_start what text in
    let answer = if ltb start (length text) then drop start text else text in
    before_prompt prompts (trim_byte b'\r' (trim_byte b' ' (trim_byte b'\n' answer)))

abbrev pub finished :
    (Bytes → List ℕ)
    → Bytes
    → CJob
    → Outcome ((String ⊎ Bytes) × SshCollector)
    → Outcome (CJob × SshCollector)
finished encode what job panic = panic
finished encode what job (ok (inl e, c)) =
    ok (record job { result = none; error = e; error_count = suc job.error_count }, c)
finished encode what job (ok (inr text, c)) =
    ok (record job { error_count = 0; result = some (encode (clean what c.prompts text)) }, c)

-- Exec; where the poll is not found (`none`) the job is left as it is
unfoldable pub exec_job :
    (Bytes → List ℕ) → Option Bytes → Reply → CJob → SshCollector → Outcome (CJob × SshCollector)
unfolding exec clean
exec_job encode none r job c = ok (job, c)
exec_job encode (some what) r job c = finished encode what job (exec r what c)

-- Online
abbrev pub online : SshCollector → Bool
online c = c.connected || not c.poll_once

-- setInitialPrompt: the text after the last line end becomes the first prompt, where there is a line end
unfoldable pub after_last_line : Bytes → Option Bytes
after_last_line [] = none
after_last_line (b ∷ bs) = elim (after_last_line bs) [
  | some rest ↦ some rest
  | none ↦ if b == b'\n' then some bs else none
]

abbrev pub first_prompt : Bytes → List Bytes → Outcome (List Bytes)
first_prompt p [] = panic
first_prompt p (q ∷ qs) = ok (p ∷ qs)

unfoldable pub set_initial_prompt : Bytes → SshCollector → Outcome SshCollector
unfolding after_last_line
set_initial_prompt text c = elim (after_last_line text) [
  | none ↦ ok c
  | some p ↦ first_prompt p c.prompts >>= λ ps. ok (record c { prompts = ps })
]
