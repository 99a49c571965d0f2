-- ===== src/Acpi/Tables.antt =====
-- The search of kernel/src/iodev/acpi/tables/tables.c against the list of the tables.
use skylight.Base.{
  ℕ, zero, suc, ◌+◌, ◌*◌, ◌-◌, ◌%◌, ◌^◌, ◌≤◌, ◌<◌, ◌≡◌, ◌≢◌, ◌∙◌, refl, sym, ap, inl, inr, Bool,
  true, false, not, List, [], ◌∷◌, some, ◌==◌, ==_of_ne, ==_of_eq, leb, lt→leb, le→leb,
  if◌then◌else◌, arith, Bool-cases, eq_or_ne, length, equal, equal_iff, add64,
}
use mathlib.Core.Bool.{false≢true}
use mathlib.Core.Path.{subst}
use skylight.Strings.{Memory, strlen, strncmp}
use skylight.Strings.Bytes.{IsString, strlen_lem}
use skylight.Strings.Compare.{bytes_at, comparison_lem}
use skylight.LittleEndian.{read_bytes}
use skylight.Acpi.{
  virtual_offset, sdt_header_size, rsdt_field, xsdt_field, entries_of, rsdt_get, xsdt_get,
  rsdp_missing, header_at, search, acpi_get_table,
}

-- The headers that the root table lists, from the entry `i` on.
abbrev pub listed : (count : ℕ) → (ℕ → ℕ) → (i : ℕ) → List ℕ
listed zero entry i = []
listed (suc n) entry i = entry i ∷ listed n entry (suc i)

abbrev pub has_name : Memory → (signature header : ℕ) → Bool
has_name m signature header = strncmp m header signature 4 == 0

-- The table with the number `index` of those with the signature, or NULL.
abbrev pub nth_named : (named : ℕ → Bool) → List ℕ → (index : ℕ) → ℕ
nth_named named [] index = 0
nth_named named (h ∷ hs) zero = if named h then h else nth_named named hs zero
nth_named named (h ∷ hs) (suc index) = nth_named named hs (if named h then index else suc index)

module _ (named : ℕ → Bool) (h : ℕ) (hs : List ℕ) where
  nth_named-next :
      (k : ℕ) → named h ≡ true → nth_named named (h ∷ hs) (suc k) ≡ nth_named named hs k
  nth_named-next k e = rw e

  nth_named-skip : (k : ℕ) → named h ≡ false → nth_named named (h ∷ hs) k ≡ nth_named named hs k
  nth_named-skip zero e = rw e
  nth_named-skip (suc k) e = rw e

module _ (m : Memory) (rsdp signature index : ℕ) where
  search_lem :
      (count rounds i occurence : ℕ)
      → ((j : ℕ) → i ≤ j → j < i + count → header_at m rsdp j ≢ 0)
      → header_at m rsdp (i + count) ≡ 0
      → i + count < 2 ^ 16
      → count < rounds
      → occurence ≤ index
      → index < 2 ^ 16
      → search rounds m rsdp signature index i occurence
        ≡ some (
            nth_named
              (has_name m signature)
              (listed count (header_at m rsdp) i)
              (index - occurence))
  unfolding search
  search_lem count zero i occurence filled last small few below fits = absurd (omega arith)
  search_lem zero (suc rounds) i occurence filled last small few below fits =
      let e : header_at m rsdp i ≡ 0 = ap (header_at m rsdp) (omega arith) ∙ last in
      rw (==_of_eq (header_at m rsdp i) 0 e)
  search_lem (suc count) (suc rounds) i occurence filled last small few below fits =
      let h = header_at m rsdp i in
      let next : (i + 1) % 2 ^ 16 ≡ suc i = omega arith in
      let others = λ (o : ℕ) (b : o ≤ index).
        search_lem count rounds (suc i) o (λ j low high. filled j (omega arith) (omega arith))
          (ap (header_at m rsdp) (omega arith) ∙ last) (omega arith) (omega arith) b fits in
      elim (Bool-cases (has_name m signature h)) [
        | inl named ↦ elim (eq_or_ne occurence index) [
          | inl found ↦
              let zeroth : index - occurence ≡ 0 = omega arith in
              rw
                (
                  ==_of_ne h 0 (filled i (omega arith) (omega arith)),
                  named,
                  ==_of_eq occurence index found,
                  zeroth,
                )
                (rw named)
          | inr before ↦
              let more : (occurence + 1) % 2 ^ 16 ≡ suc occurence = omega arith in
              let left : index - occurence ≡ suc (index - suc occurence) = omega arith in
              rw
                (
                  ==_of_ne h 0 (filled i (omega arith) (omega arith)),
                  named,
                  ==_of_ne occurence index before,
                  left,
                  next,
                  more,
                )
                (others (suc occurence) (omega arith)
                  ∙ ap some (sym (nth_named-next (has_name m signature) h _ _ named)))
        ]
        | inr other ↦
            rw (==_of_ne h 0 (filled i (omega arith) (omega arith)), other, next)
              (others occurence below
                ∙ ap some (sym (nth_named-skip (has_name m signature) h _ _ other)))
      ]

-- The tables that the root table lists: as many as it has groups of 8 bytes behind its header.
abbrev pub root_of : Memory → (rsdp : ℕ) → ℕ
root_of m rsdp =
    if not (xsdt_field m rsdp == 0)
    then add64 (xsdt_field m rsdp) virtual_offset
    else add64 (rsdt_field m rsdp) virtual_offset

abbrev pub entry_of : Memory → (rsdp i : ℕ) → ℕ
entry_of m rsdp i =
    if not (xsdt_field m rsdp == 0)
    then add64
        (read_bytes 8 m (add64 (add64 (xsdt_field m rsdp) sdt_header_size) virtual_offset + 8 * i))
        virtual_offset
    else add64
        (read_bytes 4 m (add64 (add64 (rsdt_field m rsdp) sdt_header_size) virtual_offset + 4 * i))
        virtual_offset

abbrev pub tables_of : Memory → (rsdp : ℕ) → List ℕ
tables_of m rsdp = listed (entries_of m (root_of m rsdp)) (entry_of m rsdp) 0

header_at-entry :
    (m : Memory) (rsdp i : ℕ)
    → header_at m rsdp i ≡ (if leb (entries_of m (root_of m rsdp)) i then 0 else entry_of m rsdp i)
unfolding header_at rsdt_get xsdt_get
header_at-entry m rsdp i = elim (Bool-cases (xsdt_field m rsdp == 0)) [
  | inl e ↦ rw e
  | inr e ↦ rw e
]

header_at-inside :
    (m : Memory) (rsdp i : ℕ)
    → i < entries_of m (root_of m rsdp)
    → header_at m rsdp i ≡ entry_of m rsdp i
header_at-inside m rsdp i h =
    header_at-entry m rsdp i
    ∙ ap (λ b. if b then 0 else entry_of m rsdp i) (lt→leb (entries_of m (root_of m rsdp)) i h)

header_at-behind :
    (m : Memory) (rsdp i : ℕ) → entries_of m (root_of m rsdp) ≤ i → header_at m rsdp i ≡ 0
header_at-behind m rsdp i h =
    header_at-entry m rsdp i
    ∙ ap (λ b. if b then 0 else entry_of m rsdp i) (le→leb (entries_of m (root_of m rsdp)) i h)

listed-same :
    (count : ℕ) (f g : ℕ → ℕ) (i : ℕ)
    → ((j : ℕ) → i ≤ j → j < i + count → f j ≡ g j)
    → listed count f i ≡ listed count g i
listed-same zero f g i same = refl
listed-same (suc n) f g i same =
    ap (λ h. h ∷ listed n f (suc i)) (same i (omega arith) (omega arith))
    ∙ ap (λ l. g i ∷ l)
        (listed-same n f g (suc i) (λ j low high. same j (omega arith) (omega arith)))

nth_named-same :
    (f g : ℕ → Bool) (hs : List ℕ) (k : ℕ)
    → ((h : ℕ) → f h ≡ g h)
    → nth_named f hs k ≡ nth_named g hs k
nth_named-same f g [] k same = refl
nth_named-same f g (h ∷ hs) zero same = rw (same h, nth_named-same f g hs zero same)
nth_named-same f g (h ∷ hs) (suc k) same = rw (same h, nth_named-same f g hs _ same)

IsString-bytes_at :
    (m : Memory) (p : ℕ) (xs : List ℕ) → IsString m p xs → bytes_at m p (length xs) ≡ xs
IsString-bytes_at m p [] i = refl
IsString-bytes_at m p (x ∷ xs) (here, pos, byte, rest) =
    ap (λ c. c ∷ bytes_at m (suc p) (length xs)) here
    ∙ ap (λ l. x ∷ l) (IsString-bytes_at m (suc p) xs rest)

-- Whether the table at `header` has the name.
abbrev pub is_named : Memory → List ℕ → (header : ℕ) → Bool
is_named m name header = equal (bytes_at m header 4) name

has_name-is_named :
    (m : Memory) (signature : ℕ) (name : List ℕ)
    → ((q : ℕ) → m q < 256)
    → bytes_at m signature 4 ≡ name
    → (h : ℕ) → has_name m signature h ≡ is_named m name h
has_name-is_named m signature name bytes text h =
    let same = (comparison_lem m h signature 4 bytes).1 in
    elim (Bool-cases (is_named m name h)) [
      | inl e ↦
          let z = same.1 ((equal_iff (bytes_at m h 4) name).0 e ∙ sym text) in
          ==_of_eq _ 0 z ∙ sym e
      | inr e ↦
          ==_of_ne _ 0
            (λ z. false≢true (sym e ∙ (equal_iff (bytes_at m h 4) name).1 (same.0 z ∙ text)))
          ∙ sym e
    ]

search-tables :
    (rounds : ℕ) (m : Memory) (rsdp signature index count : ℕ)
    → index < 2 ^ 16
    → count < 2 ^ 16
    → count < rounds
    → count ≤ entries_of m (root_of m rsdp)
    → entries_of m (root_of m rsdp) ≤ count
    → ((j : ℕ) → j < entries_of m (root_of m rsdp) → entry_of m rsdp j ≢ 0)
    → search rounds m rsdp signature index 0 0
      ≡ some (nth_named (has_name m signature) (listed count (entry_of m rsdp) 0) index)
search-tables rounds m rsdp signature index count fits small few low high filled =
    search_lem m rsdp signature index count rounds 0 0
      (λ j from to. λ z. filled j (omega arith) (sym (header_at-inside m rsdp j (omega arith)) ∙ z))
      (header_at-behind m rsdp (0 + count) (omega arith)) (omega arith) few (omega arith) fits
    ∙ ap (λ l. some (nth_named (has_name m signature) l (index - 0)))
        (listed-same count (header_at m rsdp) (entry_of m rsdp) 0
          (λ j from to. header_at-inside m rsdp j (omega arith)))
    ∙ ap (λ k. some (nth_named (has_name m signature) (listed count (entry_of m rsdp) 0) k))
        (omega arith)

-- In a memory of bytes, with four rounds more than the root table has groups of 8 bytes and one,
-- fewer than `2 ^ 16` of them and no entry that is NULL, with a root pointer that is not missing,
-- for an index below `2 ^ 16` and a name of four characters, `acpi_get_table` returns the table
-- with the number `index` among the listed ones whose first four bytes are the name, and NULL if
-- there is none.
pub acpi_get_table_lem :
    (rounds : ℕ) (m : Memory) (rsdp signature index : ℕ) (name : List ℕ)
    → ((q : ℕ) → m q < 256)
    → rsdp_missing rsdp ≡ false
    → IsString m signature name
    → length name ≡ 4
    → index < 2 ^ 16
    → entries_of m (root_of m rsdp) < 2 ^ 16
    → entries_of m (root_of m rsdp) + 4 < rounds
    → ((j : ℕ) → j < entries_of m (root_of m rsdp) → entry_of m rsdp j ≢ 0)
    → acpi_get_table rounds m rsdp signature index
      ≡ some (nth_named (is_named m name) (tables_of m rsdp) index)
unfolding acpi_get_table
acpi_get_table_lem rounds m rsdp signature index name bytes here text four fits small few filled =
    let searched =
      search-tables rounds m rsdp signature index (entries_of m (root_of m rsdp)) fits small
        (omega arith) (omega arith) (omega arith) filled in
    let named = nth_named-same (has_name m signature) (is_named m name) (tables_of m rsdp) index (
      has_name-is_named m signature name bytes (
        subst (λ k. bytes_at m signature k ≡ name) four
          (IsString-bytes_at m signature name text))) in
    let measured : strlen rounds m signature ≡ some 4 =
      strlen_lem rounds m signature name text (omega arith) ∙ ap some four in
    rw (here, acpi_get_table, measured) (searched ∙ ap some named)
