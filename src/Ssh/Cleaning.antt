-- ===== src/Ssh/Cleaning.antt =====
-- What Exec of go/collector/protocols/ssh/Ssh.go leaves of the text that it read.
use l8collector.Prelude.{
  ℕ, suc, ◌<◌, ◌≡◌, refl, ◌∙◌, sym, ap, none, some, List, [], ◌∷◌, ◌++◌, length, length-append,
  drop, take, ltb, if◌then◌else◌, arith,
}
use l8collector.Text.Bytes.{index_of, trim_byte, index_of-append}
use l8collector.Ssh.{Bytes, answer_start, before_prompt, clean}

-- No line end, space or carriage return is trimmed.
abbrev pub IsTrimmed : Bytes → Type 0
IsTrimmed s = (trim_byte b'\n' s ≡ s) × (trim_byte b' ' s ≡ s) × (trim_byte b'\r' s ≡ s)

-- An answer that the prompt ends, in which the prompt is not found before, and from whose ends nothing
-- is trimmed.
pub record IsAnswer (prompt body : Bytes) : Type 0 where
  pub trimmed : IsTrimmed (body ++ prompt)
  pub ends : index_of prompt (body ++ prompt) ≡ some (length body)
  pub present : 0 < length prompt

drop-append : (xs ys : Bytes) → drop (length xs) (xs ++ ys) ≡ ys
drop-append [] ys = refl
drop-append (x ∷ xs) ys = drop-append xs ys

take-append : (xs ys : Bytes) → take (length xs) (xs ++ ys) ≡ xs
take-append [] [] = refl
take-append [] (y ∷ ys) = refl
take-append (x ∷ xs) ys = ap (◌∷◌ x) (take-append xs ys)

drop_echo : (what rest : Bytes) (c : ℕ) → drop (suc (length what)) (what ++ c ∷ rest) ≡ rest
drop_echo [] rest c = refl
drop_echo (x ∷ xs) rest c = drop_echo xs rest c

-- the steps after the start of the answer
answer-body :
    (prompt body : Bytes) (ps : List Bytes)
    → IsAnswer prompt body
    → before_prompt
        (prompt ∷ ps)
        (trim_byte b'\r' (trim_byte b' ' (trim_byte b'\n' (body ++ prompt))))
      ≡ body
unfolding before_prompt
answer-body prompt body ps h =
    ap (before_prompt (prompt ∷ ps)) (
      ap (λ s. trim_byte b'\r' (trim_byte b' ' s)) h.trimmed.0
      ∙ ap (trim_byte b'\r') h.trimmed.1
      ∙ h.trimmed.2)
    ∙ rw (h.ends, before_prompt) (take-append body prompt)

cut_at :
    (start : ℕ) (text rest : Bytes)
    → drop start text ≡ rest
    → start < length text
    → (if ltb start (length text) then drop start text else text) ≡ rest
cut_at start text rest e lt = ground (arith, e)

clean-from :
    (what text prompt body : Bytes) (ps : List Bytes)
    → IsAnswer prompt body
    → drop (answer_start what text) text ≡ body ++ prompt
    → answer_start what text < length text
    → clean what (prompt ∷ ps) text ≡ body
unfolding clean
clean-from what text prompt body ps h e lt =
    ap (λ a. before_prompt (prompt ∷ ps) (trim_byte b'\r' (trim_byte b' ' (trim_byte b'\n' a))))
      (cut_at (answer_start what text) text (body ++ prompt) e lt)
    ∙ answer-body prompt body ps h

answer_start-echo : (what rest : Bytes) → answer_start what (what ++ rest) ≡ suc (length what)
unfolding answer_start
answer_start-echo what rest = rw (index_of-append what rest, answer_start) omega arith

answer_start-none :
    (what text : Bytes) → index_of what text ≡ none → answer_start what text ≡ length what
unfolding answer_start
answer_start-none what text e = rw (e, answer_start) refl

-- An answer is a body and the first of the configured prompts, which is not empty. The prompt is found
-- only at the end of the answer (no # is in the body of a device whose prompt is #), and the answer does
-- not begin or end with a line end, a space or a carriage return. After the echo of the command and one
-- byte more the body is returned whole and without the prompt. Where the command is not in the output at
-- all, as many bytes as the command has are lost before the body.
pub clean_answer :
    (what : Bytes) (c : ℕ) (lost body prompt : Bytes) (ps : List Bytes)
    → IsAnswer prompt body
    → index_of what (lost ++ (body ++ prompt)) ≡ none
    → length lost ≡ length what
    → (clean what (prompt ∷ ps) (what ++ c ∷ (body ++ prompt)) ≡ body)
      × (clean what (prompt ∷ ps) (lost ++ (body ++ prompt)) ≡ body)
clean_answer what c lost body prompt ps h absent e =
    let answer = body ++ prompt in
    let echo = answer_start-echo what (c ∷ answer) in
    let silent = answer_start-none what (lost ++ answer) absent in
    (
      clean-from what (what ++ c ∷ answer) prompt body ps h
          (ap (λ n. drop n (what ++ c ∷ answer)) echo ∙ drop_echo what answer c)
          (omega
            (arith, echo, h.present, length-append what (c ∷ answer), length-append body prompt)),
      clean-from what (lost ++ answer) prompt body ps h
          (ap (λ n. drop n (lost ++ answer)) (silent ∙ sym e) ∙ drop-append lost answer)
          (omega
            (arith, silent, e, h.present, length-append lost answer, length-append body prompt)),
    )
