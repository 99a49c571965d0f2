-- ===== src/Paging/Walk.antt =====
-- Page tables that differ in one entry at most, and the walks through them.
use skylight.Base.{
  ℕ, ◌≡◌, refl, arith, ◌∙◌, ap, sym, Bool, false, ◌&&◌, ◌||◌, Option, none, some, ==_refl, ◌==◌,
}
use mathlib.Core.Option.{none-ne-some, some-injective}
use skylight.Paging.{
  Indexer, indexer_assign, Paging, get_address, next_table, last_table, through, put_entry,
  set_entry, paging_walk_page,
}

abbrev pub is_entry : (t i : ℕ) → ℕ → ℕ → Bool
is_entry t i u j = (u == t) && (j == i)

abbrev pub in_next : Option ℕ → (ℕ → Bool) → Bool
in_next none p = false
in_next (some table) p = p table

-- Whether the walk of an address uses the entry above the last table, or at all.
abbrev pub uses_above : Paging → Indexer → (t i : ℕ) → Bool
uses_above s index t i =
    is_entry t i s.pml4 index.pml4
    || in_next (next_table (s.tables s.pml4 index.pml4)) (λ pdp.
      is_entry t i pdp index.pml3
      || in_next (next_table (s.tables pdp index.pml3)) (λ pd. is_entry t i pd index.pml2))

abbrev pub uses : Paging → Indexer → (t i : ℕ) → Bool
uses s index t i =
    uses_above s index t i || in_next (last_table s index) (λ pt. is_entry t i pt index.pml1)

-- All entries but one lead where they led.
pub record Alike (t i : ℕ) (s s' : Paging) : Type 0 where
  pub pml4 : s'.pml4 ≡ s.pml4
  pub next :
      (u j : ℕ) → is_entry t i u j ≡ false → next_table (s'.tables u j) ≡ next_table (s.tables u j)
  pub address :
      (u j : ℕ)
      → is_entry t i u j ≡ false
      → get_address (s'.tables u j) ≡ get_address (s.tables u j)

or-false : (b c : Bool) → (b || c) ≡ false → (b ≡ false) × (c ≡ false)
or-false b c h = ground arith

in_next-some :
    (o : Option ℕ) (p : ℕ → Bool) (t : ℕ) → in_next o p ≡ false → o ≡ some t → p t ≡ false
in_next-some none p t h e = absurd (none-ne-some t e)
in_next-some (some u) p t h e = ap p (sym (some-injective _ _ e)) ∙ h

through-ext :
    (o o' : Option ℕ) (f g : ℕ → Option ℕ)
    → o ≡ o'
    → ((t : ℕ) → o' ≡ some t → f t ≡ g t)
    → through o f ≡ through o' g
through-ext o none f g e same = ap (λ p. through p f) e
through-ext o (some t) f g e same = ap (λ p. through p f) e ∙ same t refl

abbrev found : Option ℕ → (ℕ → ℕ) → ℕ
found o f = elim o [ none ↦ 0 | some t ↦ f t ]

found-ext :
    (o o' : Option ℕ) (f g : ℕ → ℕ)
    → o ≡ o'
    → ((t : ℕ) → o' ≡ some t → f t ≡ g t)
    → found o f ≡ found o' g
found-ext o none f g e same = ap (λ p. found p f) e
found-ext o (some t) f g e same = ap (λ p. found p f) e ∙ same t refl

module _ (t i : ℕ) (s s' : Paging) (alike : Alike t i s s') (index : Indexer) where
  pub last_table-Alike : uses_above s index t i ≡ false → last_table s' index ≡ last_table s index
  unfolding last_table
  last_table-Alike unused =
      let (top, rest) = or-false (is_entry t i s.pml4 index.pml4) _ unused in
      through-ext _ _ _ _
        (ap (λ p. next_table (s'.tables p index.pml4)) alike.pml4
          ∙ alike.next s.pml4 index.pml4 top)
        λ pdp at_pdp.
          let (middle, low) =
            or-false (is_entry t i pdp index.pml3) _ (in_next-some _ _ pdp rest at_pdp) in
          through-ext _ _ _ _ (alike.next pdp index.pml3 middle)
            λ pd at_pd. alike.next pd index.pml2 (in_next-some _ _ pd low at_pd)

-- Where the entry is not on the way of an address, it is translated as before.
pub paging_walk_page-Alike :
    (t i : ℕ) (s s' : Paging) (v : ℕ)
    → Alike t i s s'
    → uses s (indexer_assign v) t i ≡ false
    → paging_walk_page v s' ≡ paging_walk_page v s
unfolding paging_walk_page
paging_walk_page-Alike t i s s' v alike unused =
    let index = indexer_assign v in
    let (above, leaf) = or-false (uses_above s index t i) _ unused in
    found-ext _ _ _ _ (last_table-Alike t i s s' alike index above)
      λ pt at_pt. alike.address pt index.pml1 (in_next-some _ _ pt leaf at_pt)

-- The walk of an address whose last table is known.
pub paging_walk_page-at :
    (s : Paging) (v pt : ℕ)
    → last_table s (indexer_assign v) ≡ some pt
    → paging_walk_page v s ≡ get_address (s.tables pt (indexer_assign v).pml1)
unfolding paging_walk_page
paging_walk_page-at s v pt leads =
    ap (λ o. found o (λ t. get_address (s.tables t (indexer_assign v).pml1))) leads

-- A write of one entry.
pub put_entry-same : (tables : ℕ → ℕ → ℕ) (t i entry : ℕ) → put_entry tables t i entry t i ≡ entry
put_entry-same tables t i entry = rw (==_refl t, ==_refl i) refl

pub put_entry-other :
    (tables : ℕ → ℕ → ℕ) (t i entry u j : ℕ)
    → is_entry t i u j ≡ false
    → put_entry tables t i entry u j ≡ tables u j
put_entry-other tables t i entry u j other = rw other refl

pub set_entry-Alike : (t i entry : ℕ) (s : Paging) → Alike t i s (set_entry t i entry s)
unfolding set_entry
set_entry-Alike t i entry s = record {
  pml4 = refl;
  next = λ u j other. ap next_table (put_entry-other s.tables t i entry u j other);
  address = λ u j other. ap get_address (put_entry-other s.tables t i entry u j other);
}
