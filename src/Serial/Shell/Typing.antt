-- ===== src/Serial/Shell/Typing.antt =====
-- Characters typed on the shell of kernel/src/iodev/uart/shell.c, up to the end of the line: they
-- are echoed, and the printable ones stand in the buffer, in order, as far as it has room.
use skylight.Base.{
  ℕ, zero, suc, ◌+◌, ◌≤◌, ◌<◌, ◌≡◌, ◌≢◌, ◌∙◌, refl, sym, ap, inl, inr, true, false, ◌||◌, List, [],
  ◌∷◌, ◌++◌, ltb, leb, if_true, if_false, arith, Bool-cases, le_or_lt, length, length-append, take,
  take-all, ==_of_ne,
}
use mathlib.Core.List.{append_assoc, append-nil, map-append}
use mathlib.Core.Path.{subst}
use skylight.Strings.{store}
use skylight.Serial.{internal_write}
use skylight.Serial.Shell.{Shell, shell_put, buffer_append}
use skylight.Serial.Shell.Commands.{Dumps, handle_character, handle_all}
use skylight.Serial.Shell.Line.{
  is_printable, printables, OnOneLine, Holds, IsLine, sent, internal_write_lem, Holds-store, enter,
  echo, Typed,
}

echo_wire :
    (c : ℕ) (s : Shell)
    → s.output_port ≢ 0
    → 0 < c
    → internal_write (c ∷ []) s.output_port s.wire ≡ s.wire ++ sent s.output_port (c ∷ [])
echo_wire c s open_port pos = internal_write_lem (c ∷ []) s.output_port s.wire open_port (pos, tt)

-- A printable character while the buffer has room.
append_room :
    (c : ℕ) (s : Shell) (xs : List ℕ)
    → is_printable c ≡ true
    → s.output_port ≢ 0
    → length xs < 4095
    → IsLine s xs
    → Typed s (buffer_append c (shell_put (c ∷ []) s)) (c ∷ []) (xs ++ c ∷ [])
unfolding buffer_append
append_room c s xs p open_port room l =
    let t : Shell = record (shell_put (c ∷ []) s) {
      memory = store s.memory (s.command_buffer + s.command_buffer_index) c;
      command_buffer_index = suc s.command_buffer_index;
    } in
    let stored = Holds-store s.memory s.command_buffer c xs (ground arith) (ground arith) l.bytes in
    let done : Typed s t (c ∷ []) (xs ++ c ∷ []) = record {
      line = record {
        index = omega (arith, l.index, length-append {0} xs (c ∷ []));
        bytes =
            subst
              (λ k. Holds (store s.memory (s.command_buffer + k) c) s.command_buffer (xs ++ c ∷ []))
              (sym l.index) stored;
      };
      port = refl;
      prompt = refl;
      buffer = refl;
      wire = echo_wire c s open_port (ground arith);
    } in
    let fits : leb s.command_buffer_index 4094 ≡ true = ground (arith, l.index) in
    subst (λ u. Typed s u (c ∷ []) (xs ++ c ∷ [])) (sym (if_true _ t _ fits)) done

-- A printable character when the buffer is full.
append_full :
    (c : ℕ) (s : Shell) (xs : List ℕ)
    → is_printable c ≡ true
    → s.output_port ≢ 0
    → 4095 ≤ length xs
    → IsLine s xs
    → Typed s (buffer_append c (shell_put (c ∷ []) s)) (c ∷ []) xs
unfolding buffer_append
append_full c s xs p open_port full l =
    let done : Typed s (shell_put (c ∷ []) s) (c ∷ []) xs = record {
      line = record { index = l.index; bytes = l.bytes };
      port = refl;
      prompt = refl;
      buffer = refl;
      wire = echo_wire c s open_port (ground arith);
    } in
    let stops : leb s.command_buffer_index 4094 ≡ false = ground (arith, l.index) in
    subst (λ u. Typed s u (c ∷ []) xs) (sym (if_false _ _ _ stops)) done

buffer_append_lem :
    (c : ℕ) (s : Shell) (xs : List ℕ)
    → is_printable c ≡ true
    → s.output_port ≢ 0
    → IsLine s xs
    → Typed s (buffer_append c (shell_put (c ∷ []) s)) (c ∷ []) (enter xs c)
buffer_append_lem c s xs p open_port l =
    let t = buffer_append c (shell_put (c ∷ []) s) in
    elim (le_or_lt 4095 (length xs)) [
      | inl full ↦
          let same : enter xs c ≡ xs = ground arith in
          subst (λ ys. Typed s t (c ∷ []) ys) (sym same) (append_full c s xs p open_port full l)
      | inr room ↦
          let more : enter xs c ≡ xs ++ c ∷ [] = ground arith in
          subst (λ ys. Typed s t (c ∷ []) ys) (sym more) (append_room c s xs p open_port room l)
    ]

take-append_full {ℓ} :
    {A : Type ℓ} (n : ℕ) (xs ys : List A) → length xs ≡ n → take n (xs ++ ys) ≡ xs
take-append_full zero [] ys h = refl
take-append_full zero (x ∷ xs) ys h = absurd (omega arith)
take-append_full (suc n) [] ys h = absurd (omega arith)
take-append_full (suc n) (x ∷ xs) ys h = ap (λ l. x ∷ l) (take-append_full n xs ys (omega arith))

enter_le : (xs : List ℕ) (c : ℕ) → length xs ≤ 4095 → length (enter xs c) ≤ 4095
enter_le xs c h = ground (arith, length-append xs (c ∷ []))

-- One character more, then the others, against all of them at once.
enter-append :
    (xs : List ℕ) (c : ℕ) (cs : List ℕ)
    → length xs ≤ 4095
    → take 4095 (enter xs c ++ printables cs) ≡ take 4095 (xs ++ printables (c ∷ cs))
enter-append xs c cs h = elim (Bool-cases (is_printable c)) [
  | inl p ↦ elim (le_or_lt 4095 (length xs)) [
    | inl full ↦
        let same : enter xs c ≡ xs = ground arith in
        let len : length xs ≡ 4095 = omega arith in
        rw (same, take-append_full 4095 xs (printables cs) len)
          (sym (take-append_full 4095 xs (printables (c ∷ cs)) len))
    | inr room ↦
        let more : enter xs c ≡ xs ++ c ∷ [] = ground arith in
        rw (more, p, append_assoc xs (c ∷ []) (printables cs))
  ]
  | inr p ↦ rw p
]

Typed-trans :
    {s t u : Shell} (x y xs ys : List ℕ) → Typed s t x xs → Typed t u y ys → Typed s u (x ++ y) ys
Typed-trans {s} {t} {u} x y xs ys a b = record {
  line = b.line;
  port = b.port ∙ a.port;
  prompt = b.prompt ∙ a.prompt;
  buffer = b.buffer ∙ a.buffer;
  wire =
      b.wire
      ∙ ap (λ p. t.wire ++ sent p y) a.port
      ∙ ap (λ w. w ++ sent s.output_port y) a.wire
      ∙ append_assoc s.wire (sent s.output_port x) (sent s.output_port y)
      ∙ ap (λ w. s.wire ++ w) (sym (map-append _ x y));
}

module _ (dumps : Dumps) where
  handle_character_lem :
      (c : ℕ) (s : Shell) (xs : List ℕ)
      → c ≢ 10
      → c ≢ 13
      → s.output_port ≢ 0
      → IsLine s xs
      → Typed s (handle_character dumps c s) (echo c) (enter xs c)
  unfolding handle_character
  handle_character_lem c s xs lf cr open_port l = elim (Bool-cases (is_printable c)) [
    | inl p ↦
        let low : ltb c 0x20 ≡ false = ground arith in
        let high : ltb 0x7E c ≡ false = ground arith in
        let same : handle_character dumps c s ≡ buffer_append c (shell_put (c ∷ []) s) =
          rw (==_of_ne c 10 lf, ==_of_ne c 13 cr, low, high) in
        let text : echo c ≡ c ∷ [] = rw p in
        subst (λ u. Typed s u (echo c) (enter xs c)) (sym same)
          (subst (λ e. Typed s (buffer_append c (shell_put (c ∷ []) s)) e (enter xs c)) (sym text)
            (buffer_append_lem c s xs p open_port l))
    | inr p ↦
        let out : (ltb c 0x20 || ltb 0x7E c) ≡ true = ground arith in
        let same : handle_character dumps c s ≡ s = rw (==_of_ne c 10 lf, ==_of_ne c 13 cr, out) in
        let text : echo c ≡ [] = rw p in
        let line : enter xs c ≡ xs = ground arith in
        let done : Typed s s [] xs = record {
          line = l;
          port = refl;
          prompt = refl;
          buffer = refl;
          wire = sym (append-nil s.wire);
        } in
        subst (λ u. Typed s u (echo c) (enter xs c)) (sym same)
          (subst (λ e. Typed s s e (enter xs c)) (sym text)
            (subst (λ ys. Typed s s [] ys) (sym line) done))
  ]

  -- Characters on one line.
  pub handle_all-Typed :
      (cs : List ℕ) (s : Shell) (xs : List ℕ)
      → OnOneLine cs
      → s.output_port ≢ 0
      → length xs ≤ 4095
      → IsLine s xs
      → Typed s (handle_all dumps cs s) (printables cs) (take 4095 (xs ++ printables cs))
  unfolding handle_all
  handle_all-Typed [] s xs h open_port short l =
      let all : take 4095 (xs ++ []) ≡ xs =
        ap (take 4095) (append-nil xs) ∙ take-all 4095 xs short in
      let done : Typed s s [] xs = record {
        line = l;
        port = refl;
        prompt = refl;
        buffer = refl;
        wire = sym (append-nil s.wire);
      } in
      subst (λ ys. Typed s s [] ys) (sym all) done
  handle_all-Typed (c ∷ cs) s xs (lf, cr, rest) open_port short l =
      let first = handle_character_lem c s xs lf cr open_port l in
      let t = handle_character dumps c s in
      let others =
        handle_all-Typed cs t (enter xs c) rest (rw first.port open_port) (enter_le xs c short)
          first.line in
      let text : echo c ++ printables cs ≡ printables (c ∷ cs) = ground arith in
      subst (λ ys. Typed s (handle_all dumps cs t) (printables (c ∷ cs)) ys)
        (enter-append xs c cs short)
        (subst (λ e. Typed s (handle_all dumps cs t) e (take 4095 (enter xs c ++ printables cs)))
          text (Typed-trans (echo c) (printables cs) (enter xs c) _ first others))
