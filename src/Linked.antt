-- ===== src/Linked.antt =====
-- Doubly linked nodes at addresses: the memory that the heap's segment headers live in. Address 0 is
-- `NULL`.
use skylight.Base.{ℕ, ◌==◌, if◌then◌else◌, Option, ◌≡◌, ◌≢◌, arith}

abbrev pub Ptr : Type 0
Ptr = ℕ

abbrev pub null : Ptr
null = 0

pub record Node {ℓ} (A : Type ℓ) : Type ℓ where
  pub prev : Ptr
  pub next : Ptr
  pub item : A

module _ {ℓ} {A : Type ℓ} where
  abbrev pub node : Ptr → Ptr → A → Node A
  node p n a = record { prev = p; next = n; item = a }

abbrev pub Nodes {ℓ} : Type ℓ → Type ℓ
Nodes A = Ptr → Option (Node A)

module _ {ℓ} {A : Type ℓ} where
  unfoldable pub write : Nodes A → Ptr → Option (Node A) → Nodes A
  write h p c a = if a == p then c else h a

  pub write_self : (h : Nodes A) (p : Ptr) (c : Option (Node A)) → write h p c p ≡ c
  unfolding write
  write_self h p c = ground arith

  pub write-ne :
      (h : Nodes A) (p : Ptr) (c : Option (Node A)) {a : Ptr} → a ≢ p → write h p c a ≡ h a
  unfolding write
  write-ne h p c ne = ground arith
