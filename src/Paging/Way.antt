-- ===== src/Paging/Way.antt =====
-- The tables on the way of an address, and flags added to the entries that lead to them.
use skylight.Base.{
  ℕ, ◌<◌, ◌≡◌, refl, arith, ◌∙◌, ap, sym, true, false, Option, none, some, Bool-cases, inl, inr,
}
use mathlib.Core.Path.{subst}
use mathlib.Core.Option.{none-ne-some}
use skylight.Paging.{
  Indexer, Paging, PagingCmd, get_address, next_table, last_table, through, put_entry, set_entry,
  add_flags, descend,
}
use skylight.Paging.Fields.{get_address-bit_or, next_table-some, next_table-bit_or, next_table-zero}
use skylight.Paging.Walk.{is_entry, uses_above}

-- Flags were added to entries that lead to tables.
pub record Kept (s s' : Paging) : Type 0 where
  pub pml4 : s'.pml4 ≡ s.pml4
  pub memory : s'.memory ≡ s.memory
  pub next : (u j : ℕ) → next_table (s'.tables u j) ≡ next_table (s.tables u j)
  pub address : (u j : ℕ) → get_address (s'.tables u j) ≡ get_address (s.tables u j)
  pub empty : (u j : ℕ) → s.tables u j ≡ 0 → s'.tables u j ≡ 0

pub Kept-trans : (s s' s'' : Paging) → Kept s s' → Kept s' s'' → Kept s s''
Kept-trans s s' s'' one two = record {
  pml4 = two.pml4 ∙ one.pml4;
  memory = two.memory ∙ one.memory;
  next = λ u j. two.next u j ∙ one.next u j;
  address = λ u j. two.address u j ∙ one.address u j;
  empty = λ u j h. two.empty u j (one.empty u j h);
}

pub is_entry-eq : (t i u j : ℕ) → is_entry t i u j ≡ true → (u ≡ t) × (j ≡ i)
is_entry-eq t i u j same = ground arith

pub is_entry-tables :
    (tables : ℕ → ℕ → ℕ) (t i u j : ℕ) → is_entry t i u j ≡ true → tables t i ≡ tables u j
is_entry-tables tables t i u j same =
    let (at_t, at_i) = is_entry-eq t i u j same in
    ap (λ a. tables a i) (sym at_t) ∙ ap (tables u) (sym at_i)

-- What holds of the entry written and of every other entry holds of all.
pub put_entry-all :
    (P : ℕ → ℕ → Type 0) (tables : ℕ → ℕ → ℕ) (t i entry : ℕ)
    → P (tables t i) entry
    → ((d : ℕ) → P d d)
    → (u j : ℕ) → P (tables u j) (put_entry tables t i entry u j)
put_entry-all P tables t i entry here there u j = elim (Bool-cases (is_entry t i u j)) [
  | inl same ↦ rw same (subst (λ d. P d entry) (is_entry-tables tables t i u j same) here)
  | inr other ↦ rw other (there (tables u j))
]

pub add_flags-Kept :
    (t i f u : ℕ) (s : Paging)
    → f < 0x1000
    → next_table (s.tables t i) ≡ some u
    → Kept s (add_flags t i f s)
unfolding add_flags set_entry
add_flags-Kept t i f u s h leads = record {
  pml4 = refl;
  memory = refl;
  next =
      put_entry-all (λ d e. next_table e ≡ next_table d) s.tables t i _
        (next_table-bit_or _ f u h leads ∙ sym leads) (λ d. refl);
  address =
      put_entry-all (λ d e. get_address e ≡ get_address d) s.tables t i _ (get_address-bit_or _ f h)
        (λ d. refl);
  empty =
      put_entry-all (λ d e. d ≡ 0 → e ≡ 0) s.tables t i _
        (λ zero_entry. absurd (next_table-zero u (ap next_table (sym zero_entry) ∙ leads)))
        (λ d e. e);
}

pub descend-present :
    (again : ℕ → PagingCmd (Unit {0})) (index flags table u : ℕ) (s : Paging)
    → next_table (s.tables table index) ≡ some u
    → descend again index flags table s ≡ some (u, add_flags table index flags s)
unfolding descend add_flags
descend-present again index flags table u s leads =
    let (odd, present, address) = next_table-some _ u leads in rw (present, address) refl

pub through-some :
    (o : Option ℕ) (f : ℕ → Option ℕ) (t : ℕ)
    → through o f ≡ some t
    → (u : ℕ) × (o ≡ some u) × (f u ≡ some t)
through-some none f t e = absurd (none-ne-some t e)
through-some (some u) f t e = (u, refl, e)

-- The tables on the way of an address.
pub record Way (s : Paging) (index : Indexer) (pt : ℕ) : Type 0 where
  pub pdp : ℕ
  pub pd : ℕ
  pub to_pdp : next_table (s.tables s.pml4 index.pml4) ≡ some pdp
  pub to_pd : next_table (s.tables pdp index.pml3) ≡ some pd
  pub to_pt : next_table (s.tables pd index.pml2) ≡ some pt

pub last_table-Way :
    (s : Paging) (index : Indexer) (pt : ℕ) → last_table s index ≡ some pt → Way s index pt
unfolding last_table
last_table-Way s index pt leads =
    let (pdp, to_pdp, rest) = through-some (next_table (s.tables s.pml4 index.pml4)) _ pt leads in
    let (pd, to_pd, to_pt) = through-some (next_table (s.tables pdp index.pml3)) _ pt rest in
    record { pdp = pdp; pd = pd; to_pdp = to_pdp; to_pd = to_pd; to_pt = to_pt }

-- An empty entry is none of those that lead to the tables.
pub not_entry :
    (s : Paging) (t i u j w : ℕ)
    → s.tables t i ≡ 0
    → next_table (s.tables u j) ≡ some w
    → is_entry t i u j ≡ false
not_entry s t i u j w empty leads = elim (Bool-cases (is_entry t i u j)) [
  | inl same ↦ absurd (
      next_table-zero w
        (ap next_table (sym (sym (is_entry-tables s.tables t i u j same) ∙ empty)) ∙ leads))
  | inr other ↦ other
]

pub Way-unused :
    (s : Paging) (index : Indexer) (pt i : ℕ)
    → Way s index pt
    → s.tables pt i ≡ 0
    → uses_above s index pt i ≡ false
Way-unused s index pt i way empty =
    rw
      (
        not_entry s pt i s.pml4 index.pml4 way.pdp empty way.to_pdp,
        way.to_pdp,
        not_entry s pt i way.pdp index.pml3 way.pd empty way.to_pd,
        way.to_pd,
      )
      (not_entry s pt i way.pd index.pml2 pt empty way.to_pt)

-- The flags added on the way.
unfoldable pub on_way : (s : Paging) (index : Indexer) (pt f : ℕ) → Way s index pt → Paging
on_way s index pt f way =
    add_flags way.pd index.pml2 f (add_flags way.pdp index.pml3 f (add_flags s.pml4 index.pml4 f s))

pub on_way-Kept :
    (s : Paging) (index : Indexer) (pt f : ℕ) (way : Way s index pt)
    → f < 0x1000
    → Kept s (on_way s index pt f way)
unfolding on_way
on_way-Kept s index pt f way h =
    let s1 = add_flags s.pml4 index.pml4 f s in
    let s2 = add_flags way.pdp index.pml3 f s1 in
    let k1 = add_flags-Kept s.pml4 index.pml4 f way.pdp s h way.to_pdp in
    let k2 =
      Kept-trans s s1 s2 k1
        (add_flags-Kept way.pdp index.pml3 f way.pd s1 h (k1.next _ _ ∙ way.to_pd)) in
    Kept-trans s s2 _ k2 (add_flags-Kept way.pd index.pml2 f pt s2 h (k2.next _ _ ∙ way.to_pt))
