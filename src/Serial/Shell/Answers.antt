-- ===== src/Serial/Shell/Answers.antt =====
-- What kernel/src/iodev/uart/shell.c answers to a line that is no command.
use skylight.Base.{
  ℕ, ◌<◌, ◌≡◌, ◌≢◌, ◌∙◌, refl, sym, ap, inl, inr, Bool, true, false, not, List, [], ◌∷◌, ◌++◌, ◌==◌,
  if◌then◌else◌, if_true, if_false, arith, Bool-cases, get_or, replicate, ==_of_ne,
}
use mathlib.Core.List.{append-nil}
use mathlib.Core.Path.{subst}
use skylight.Serial.{codes}
use skylight.Serial.Shell.{
  Shell, crlf, shell_prompt, shell_put, cancel_prompt, replace_prompt, shell_write, clear_buffer,
  command_names,
}
use skylight.Serial.Shell.Commands.{Dumps, unknown, finalize_from, handle_all}
use skylight.Serial.Shell.Line.{Nonzero, printables, OnOneLine, sent}
use skylight.Serial.Shell.Bounds.{finalize_from-empty}
use skylight.Serial.Shell.Matching.{finalize_from-unknown, command_names-AllNonzero}
use skylight.Serial.Shell.Finalize.{line_of, EndsLine, put_wire, line-Searched}

-- What `cancel_prompt` writes, and what the answer to an unknown line is.
abbrev pub erased : Bool → List ℕ
erased placed = if placed then replicate 9 8 else []

abbrev pub unknown_text : List ℕ
unknown_text = codes "Unknown command..." ++ crlf

-- The wire of `t` is that of `s` and the bytes `text`, on the port of `s`.
record Wrote (s t : Shell) (text : List ℕ) : Type 0 where
  pub at : t.output_port ≡ s.output_port
  pub bytes : t.wire ≡ s.wire ++ sent s.output_port text

put-Wrote :
    (text before : List ℕ) (s t : Shell)
    → Nonzero text
    → s.output_port ≢ 0
    → Wrote s t before
    → Wrote s (shell_put text t) (before ++ text)
put-Wrote text before s t n open_port w = record {
  at = w.at;
  bytes = put_wire text s t before n open_port w.at w.bytes;
}

place-Wrote :
    (b : Bool) (s t : Shell) (text : List ℕ)
    → Wrote s t text
    → Wrote s (record t { prompt_placed = b }) text
place-Wrote b s t text w = record { at = w.at; bytes = w.bytes }

cancel-Wrote :
    (s t : Shell) (before : List ℕ) (placed : Bool)
    → t.prompt_placed ≡ placed
    → s.output_port ≢ 0
    → Wrote s t before
    → Wrote s (cancel_prompt t) (before ++ erased placed)
unfolding cancel_prompt
cancel-Wrote s t before true e open_port w =
    let shown : not t.prompt_placed ≡ false = ap not e in
    subst (λ u. Wrote s u (before ++ replicate 9 8)) (sym (if_false _ _ _ shown))
      (place-Wrote false s _ _ (put-Wrote (replicate 9 8) before s t (omega arith) open_port w))
cancel-Wrote s t before false e open_port w =
    let hidden : not t.prompt_placed ≡ true = ap not e in
    subst (λ u. Wrote s u (before ++ [])) (sym (if_true _ _ _ hidden))
      (subst (λ x. Wrote s t x) (sym (append-nil before)) w)

cancel_prompt-placed : (t : Shell) → (cancel_prompt t).prompt_placed ≡ false
unfolding cancel_prompt
cancel_prompt-placed t = elim (Bool-cases t.prompt_placed) [
  | inl e ↦
      let shown : not t.prompt_placed ≡ false = ap not e in
      ap (λ u. u.prompt_placed) (if_false _ t _ shown)
  | inr e ↦
      let hidden : not t.prompt_placed ≡ true = ap not e in
      ap (λ u. u.prompt_placed) (if_true _ t _ hidden) ∙ e
]

replace-Wrote :
    (s u : Shell) (before : List ℕ)
    → u.prompt_placed ≡ false
    → s.output_port ≢ 0
    → Wrote s u before
    → Wrote s (replace_prompt u) (before ++ shell_prompt)
unfolding replace_prompt
replace-Wrote s u before hidden open_port w =
    let same : (if u.prompt_placed then cancel_prompt u else u) ≡ u = if_false _ _ _ hidden in
    place-Wrote true s _ _ (
      put-Wrote shell_prompt before s (if u.prompt_placed then cancel_prompt u else u) (omega arith)
        open_port (subst (λ v. Wrote s v before) (sym same) w))

shell_write-listened :
    (text : List ℕ) (t : Shell)
    → ((cancel_prompt t).output_port == 0) ≡ false
    → shell_write text t ≡ replace_prompt (shell_put text (cancel_prompt t))
unfolding shell_write
shell_write-listened text t h = if_false _ _ _ h

clear-Wrote : (s t : Shell) (text : List ℕ) → Wrote s t text → Wrote s (clear_buffer t) text
unfolding clear_buffer
clear-Wrote s t text w = record { at = w.at; bytes = w.bytes }

unknown_lem :
    (dumps : Dumps) (t : Shell) → unknown dumps t ≡ clear_buffer (shell_write unknown_text t)
unfolding unknown
unknown_lem dumps t = refl

-- What an unknown line adds to the wire, behind a prompt that is placed or not.
abbrev pub answer : Bool → List ℕ → List ℕ
answer placed before = ((before ++ erased placed) ++ unknown_text) ++ shell_prompt

unknown-Wrote :
    (dumps : Dumps) (s t : Shell) (before : List ℕ) (placed : Bool)
    → t.prompt_placed ≡ placed
    → s.output_port ≢ 0
    → Wrote s t before
    → Wrote s (unknown dumps t) (answer placed before)
unknown-Wrote dumps s t before placed e open_port w =
    let u = cancel_prompt t in
    let canceled = cancel-Wrote s t before placed e open_port w in
    let written = put-Wrote unknown_text _ s u (omega arith) open_port canceled in
    let replaced =
      replace-Wrote s (shell_put unknown_text u) _ (cancel_prompt-placed t) open_port written in
    let listened : (u.output_port == 0) ≡ false =
      ==_of_ne u.output_port 0 (λ z. open_port (sym canceled.at ∙ z)) in
    let same : replace_prompt (shell_put unknown_text u) ≡ shell_write unknown_text t =
      sym (shell_write-listened unknown_text t listened) in
    subst (λ v. Wrote s v (answer placed before)) (sym (unknown_lem dumps t))
      (clear-Wrote s _ _ (subst (λ v. Wrote s v (answer placed before)) same replaced))

-- On a shell with a port and an empty buffer, a line whose printable characters, at most 4095 of
-- them, are some and no command's name is answered by exactly: the echo of all printable
-- characters, the line's end, nine backspaces if the prompt was placed, the message, and the
-- prompt. The buffer is then empty.
pub line-unknown :
    (dumps : Dumps) (cs : List ℕ) (end : ℕ) (s : Shell)
    → OnOneLine cs
    → EndsLine end
    → s.output_port ≢ 0
    → s.command_buffer_index ≡ 0
    → line_of cs ≢ []
    → ((i : ℕ) → i < 12 → line_of cs ≢ get_or command_names i [])
    → ((handle_all dumps (cs ++ end ∷ []) s).wire
        ≡ s.wire ++ sent s.output_port (answer s.prompt_placed (printables cs ++ crlf)))
      × ((handle_all dumps (cs ++ end ∷ []) s).command_buffer_index ≡ 0)
line-unknown dumps cs end s h e open_port empty some_text other =
    let (t, found, run) = line-Searched dumps cs end s h e open_port empty some_text in
    let all : finalize_from dumps command_names 0 t ≡ unknown dumps t =
      finalize_from-unknown dumps t (line_of cs) found.text command_names 0 command_names-AllNonzero
        (λ j less eq. other j less (sym eq)) in
    let wrote =
      unknown-Wrote dumps s t (printables cs ++ crlf) s.prompt_placed found.prompt open_port
        (record { at = found.port; bytes = found.wire }) in
    (
      ap (λ u. u.wire) (run ∙ all) ∙ wrote.bytes,
      ap (λ u. u.command_buffer_index) run ∙ finalize_from-empty dumps command_names 0 t,
    )
