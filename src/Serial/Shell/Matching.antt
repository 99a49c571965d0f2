-- ===== src/Serial/Shell/Matching.antt =====
-- The search for a command in kernel/src/iodev/uart/shell.c: a name matches the line in the buffer
-- exactly where it is the same text.
use skylight.Base.{
  ℕ, zero, suc, ◌+◌, ◌<◌, ◌≡◌, ◌≢◌, ◌∙◌, refl, sym, ap, Bool, true, false, not, ◌&&◌, List, [], ◌∷◌,
  arith, length, get_or, equal, equal_iff, equal_ne,
}
use skylight.Strings.{Memory}
use skylight.Strings.Bytes.{IsString}
use skylight.Serial.Shell.{Shell, command_match, command_names}
use skylight.Serial.Shell.Line.{Nonzero}
use skylight.Serial.Shell.Commands.{Dumps, executed, unknown, finalize_from}

command_match_lem :
    (m : Memory) (p : ℕ) (xs name : List ℕ)
    → IsString m p xs
    → Nonzero name
    → command_match m p name ≡ equal xs name
unfolding command_match
command_match_lem m p [] [] i n = ground arith
command_match_lem m p (x ∷ xs) [] i n = ground arith
command_match_lem m p [] (c ∷ cs) i n = ground arith
command_match_lem m p (x ∷ xs) (c ∷ cs) (here, px, bx, rest) (pc, more) =
    ground (arith, command_match_lem m (suc p) xs cs rest more)

abbrev pub AllNonzero : List (List ℕ) → Type 0
AllNonzero [] = Unit {0}
AllNonzero (n ∷ ns) = Nonzero n × AllNonzero ns

module _ (dumps : Dumps) (s : Shell) (xs : List ℕ) (i : IsString s.memory s.command_buffer xs) where
  matches :
      (name : List ℕ)
      → Nonzero name
      → name ≡ xs
      → command_match s.memory s.command_buffer name ≡ true
  matches name n e =
      command_match_lem s.memory s.command_buffer xs name i n ∙ (equal_iff xs name).1 (sym e)

  matches_not :
      (name : List ℕ)
      → Nonzero name
      → name ≢ xs
      → command_match s.memory s.command_buffer name ≡ false
  matches_not name n ne =
      command_match_lem s.memory s.command_buffer xs name i n ∙ equal_ne xs name (λ e. ne (sym e))

  -- No name is the line.
  pub finalize_from-unknown :
      (names : List (List ℕ)) (k : ℕ)
      → AllNonzero names
      → ((j : ℕ) → j < length names → get_or names j [] ≢ xs)
      → finalize_from dumps names k s ≡ unknown dumps s
  unfolding finalize_from
  finalize_from-unknown [] k n other = refl
  finalize_from-unknown (name ∷ names) k (n, ns) other =
      rw (matches_not name n (other 0 (omega arith)))
        (finalize_from-unknown names (suc k) ns (λ j h. other (suc j) (omega arith)))

  -- The name at `j` is the line, and none before it is.
  pub finalize_from-executed :
      (names : List (List ℕ)) (k j : ℕ)
      → AllNonzero names
      → j < length names
      → get_or names j [] ≡ xs
      → ((l : ℕ) → l < j → get_or names l [] ≢ xs)
      → finalize_from dumps names k s ≡ executed dumps (k + j) s
  unfolding finalize_from
  finalize_from-executed [] k j n h e first = absurd (omega arith)
  finalize_from-executed (name ∷ names) k zero (n, ns) h e first =
      rw (matches name n e) (ap (λ l. executed dumps l s) (omega arith))
  finalize_from-executed (name ∷ names) k (suc j) (n, ns) h e first =
      rw (matches_not name n (first 0 (omega arith))) (
        finalize_from-executed names (suc k) j ns (omega arith) e
          (λ l less. first (suc l) (omega arith))
        ∙ ap (λ l. executed dumps l s) (omega arith))

-- No two of the names are the same.
abbrev pub is_fresh : List ℕ → List (List ℕ) → Bool
is_fresh name [] = true
is_fresh name (n ∷ ns) = let rest = is_fresh name ns in not (equal name n) && rest

abbrev all_distinct : List (List ℕ) → Bool
all_distinct [] = true
all_distinct (n ∷ ns) = let rest = all_distinct ns in is_fresh n ns && rest

pub is_fresh-ne :
    (name : List ℕ) (ns : List (List ℕ)) (j : ℕ)
    → is_fresh name ns ≡ true
    → j < length ns
    → name ≢ get_or ns j []
is_fresh-ne name [] j f h = absurd (omega arith)
is_fresh-ne name (n ∷ ns) zero f h = λ e. ground (arith, equal_iff name n)
is_fresh-ne name (n ∷ ns) (suc j) f h = is_fresh-ne name ns j (ground arith) (omega arith)

all_distinct-ne :
    (ns : List (List ℕ)) (l j : ℕ)
    → all_distinct ns ≡ true
    → l < j
    → j < length ns
    → get_or ns l [] ≢ get_or ns j []
all_distinct-ne [] l j d less h = absurd (omega arith)
all_distinct-ne (n ∷ ns) l zero d less h = absurd (omega arith)
all_distinct-ne (n ∷ ns) zero (suc j) d less h = is_fresh-ne n ns j (ground arith) (omega arith)
all_distinct-ne (n ∷ ns) (suc l) (suc j) d less h =
    all_distinct-ne ns l j (ground arith) (omega arith) (omega arith)

pub command_names-ne :
    (l j : ℕ) → l < j → j < 12 → get_or command_names l [] ≢ get_or command_names j []
command_names-ne l j less h = all_distinct-ne command_names l j refl less h

pub command_names-AllNonzero : AllNonzero command_names
command_names-AllNonzero = omega arith

abbrev AllFilled : List (List ℕ) → Type 0
AllFilled [] = Unit {0}
AllFilled (n ∷ ns) = (0 < length n) × AllFilled ns

AllFilled-ne_nil : (ns : List (List ℕ)) (j : ℕ) → AllFilled ns → j < length ns → get_or ns j [] ≢ []
AllFilled-ne_nil [] j f h = absurd (omega arith)
AllFilled-ne_nil (n ∷ ns) zero f h = λ e. omega (arith, ap length e, f.0)
AllFilled-ne_nil (n ∷ ns) (suc j) f h = AllFilled-ne_nil ns j f.1 (omega arith)

pub command_names-ne_nil : (j : ℕ) → j < 12 → get_or command_names j [] ≢ []
command_names-ne_nil j h = AllFilled-ne_nil command_names j (omega arith) h
