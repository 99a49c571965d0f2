-- ===== src/Paging/Fields.antt =====
-- The fields of a descriptor and of an address.
use Prim.Native.Nat.{bit_or}
use skylight.Base.{
  ℕ, ◌+◌, ◌*◌, ◌/◌, ◌%◌, ◌^◌, ◌<◌, ◌≡◌, ◌≢◌, refl, arith, ◌∙◌, ap, sym, true, not, none, some,
  ==_of_eq, ==_of_ne, eq_or_ne, inl, inr,
}
use mathlib.Core.Option.{none-ne-some, some-injective}
use skylight.Paging.{
  Indexer, indexer_assign, address_bits, get_address, set_address, is_present, set_present,
  set_flags, next_table,
}
use skylight.Paging.Bits.{zero-bit_or, bit_or-page, bit_or-odd}

-- Flags in the lowest twelve bits leave the address.
pub get_address-bit_or : (d f : ℕ) → f < 0x1000 → get_address (bit_or d f) ≡ get_address d
unfolding get_address
get_address-bit_or d f h = ap (λ r. r % 2 ^ 40 * 0x1000) (bit_or-page d f h)

-- What `paging_map_page` writes into an empty entry.
pub get_address-fresh :
    (phys f : ℕ)
    → f < 0x1000
    → get_address (set_flags (set_present (set_address 0 phys)) f) ≡ address_bits phys
unfolding get_address set_flags set_present set_address
get_address-fresh phys f h =
    let page : address_bits phys / 2 * 2 + 1 ≡ address_bits phys + 1 = omega arith in
    rw (zero-bit_or (address_bits phys))
      (ap (λ r. r % 2 ^ 40 * 0x1000) (bit_or-page _ f h) ∙ omega arith)

-- Whether an entry leads on, by its lowest bit.
next_table-even : (d : ℕ) → d % 2 ≡ 0 → next_table d ≡ none
unfolding next_table is_present
next_table-even d even = rw (==_of_eq _ _ even) refl

next_table-odd : (d : ℕ) → d % 2 ≢ 0 → next_table d ≡ some (get_address d)
unfolding next_table is_present
next_table-odd d odd = rw (==_of_ne _ _ odd) refl

pub next_table-some :
    (d t : ℕ) → next_table d ≡ some t → (d % 2 ≡ 1) × (is_present d ≡ true) × (get_address d ≡ t)
unfolding is_present
next_table-some d t leads = elim (eq_or_ne (d % 2) 0) [
  | inl even ↦ absurd (none-ne-some t (sym (next_table-even d even) ∙ leads))
  | inr odd ↦ (
    omega arith,
    ap not (==_of_ne _ _ odd),
    some-injective _ _ (sym (next_table-odd d odd) ∙ leads),
  )
]

-- An entry that leads to a table still does with more flags.
pub next_table-bit_or :
    (d f t : ℕ) → f < 0x1000 → next_table d ≡ some t → next_table (bit_or d f) ≡ some t
next_table-bit_or d f t h leads =
    let (odd, present, address) = next_table-some d t leads in
    let still = bit_or-odd d f odd in
    next_table-odd (bit_or d f) (omega arith) ∙ ap some (get_address-bit_or d f h ∙ address)

pub next_table-zero : (t : ℕ) → next_table 0 ≡ some t → ⊥
unfolding next_table is_present
next_table-zero t h = none-ne-some t h

-- The indices are below 512, and with the place in the page they make up the address.
abbrev pub Indexes : ℕ → Indexer → Type 0
Indexes v i =
    (i.pml4 < 512)
    × (i.pml3 < 512)
    × (i.pml2 < 512)
    × (i.pml1 < 512)
    × (v % 2 ^ 48 ≡ (((i.pml4 * 512 + i.pml3) * 512 + i.pml2) * 512 + i.pml1) * 0x1000 + v % 0x1000)

-- The four indices of an address are below 512, and the lowest 48 bits of the address are these
-- indices, one behind another, and the place in the page.
pub indexer_assign_lem : (v : ℕ) → Indexes v (indexer_assign v)
unfolding indexer_assign
indexer_assign_lem v = (omega arith, omega arith, omega arith, omega arith, omega arith)
