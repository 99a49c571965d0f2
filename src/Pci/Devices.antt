-- ===== src/Pci/Devices.antt =====
-- `find_device` of kernel/src/iodev/pci/find.c.
use skylight.Base.{
  ℕ, zero, suc, ◌+◌, ◌<◌, ◌≡◌, refl, sym, inl, inr, not, List, [], ◌∷◌, Option, none, some, ◌==◌,
  if◌then◌else◌, arith, eq_or_ne, ==_of_eq, ==_of_ne,
}
use mathlib.Core.Option.{map}
use mathlib.Core.Path.{subst}
use skylight.Strings.{Memory}
use skylight.LittleEndian.{read_bytes}
use skylight.Pci.{PciFunction, Pci}

abbrev pub program_interface : Memory → (header : ℕ) → ℕ
program_interface m header = read_bytes 1 m (header + 9)

abbrev pub device_subclass : Memory → (header : ℕ) → ℕ
device_subclass m header = read_bytes 1 m (header + 10)

abbrev pub device_class : Memory → (header : ℕ) → ℕ
device_class m header = read_bytes 1 m (header + 11)

-- The index in the cache of the entry that is returned, `none` for NULL.
unfoldable pub find_in : Memory → List PciFunction → (class subclass interface : ℕ) → Option ℕ
find_in m [] class subclass interface = none
find_in m (f ∷ fs) class subclass interface =
    let rest = map suc (find_in m fs class subclass interface) in
    if not (device_class m f.base == class)
    then rest
    else if not (device_subclass m f.base == subclass)
    then rest
    else if not (program_interface m f.base == interface)
    then rest
    else some 0

unfoldable pub find_device : (class subclass interface : ℕ) → Pci → Option ℕ
unfolding find_in
find_device class subclass interface s = find_in s.memory s.cache class subclass interface

-- The function `a` stands at an index of a list.
abbrev pub At : List PciFunction → ℕ → PciFunction → Type 0
At [] i a = ⊥
At (x ∷ xs) zero a = x ≡ a
At (x ∷ xs) (suc i) a = At xs i a

abbrev pub HasClass : Memory → (class subclass interface : ℕ) → PciFunction → Type 0
HasClass m class subclass interface f =
    (device_class m f.base ≡ class)
    × (device_subclass m f.base ≡ subclass)
    × (program_interface m f.base ≡ interface)

-- What a search that returns `found` tells of a cache.
abbrev pub Finds : Option ℕ → (PciFunction → Type 0) → List PciFunction → Type 0
Finds none Fits fs = (k : ℕ) (f : PciFunction) → At fs k f → ¬ Fits f
Finds (some k) Fits fs =
    ((f : PciFunction) × At fs k f × Fits f)
    × ((j : ℕ) (f : PciFunction) → j < k → At fs j f → ¬ Fits f)

module _ (Fits : PciFunction → Type 0) (f : PciFunction) (fs : List PciFunction)
    (out : ¬ Fits f) where
  Behind-none :
      ((k : ℕ) (g : PciFunction) → At fs k g → ¬ Fits g)
      → (k : ℕ) (g : PciFunction) → At (f ∷ fs) k g
      → ¬ Fits g
  Behind-none told zero g e fits = out (subst Fits (sym e) fits)
  Behind-none told (suc k) g at fits = told k g at fits

  Behind-some :
      (k : ℕ)
      → ((j : ℕ) (g : PciFunction) → j < k → At fs j g → ¬ Fits g)
      → (j : ℕ) (g : PciFunction) → j < suc k
      → At (f ∷ fs) j g
      → ¬ Fits g
  Behind-some k told zero g less e fits = out (subst Fits (sym e) fits)
  Behind-some k told (suc j) g less at fits = told j g (omega arith) at fits

Finds-suc :
    (found : Option ℕ) (Fits : PciFunction → Type 0) (f : PciFunction) (fs : List PciFunction)
    → ¬ Fits f
    → Finds found Fits fs
    → Finds (map suc found) Fits (f ∷ fs)
Finds-suc none Fits f fs out told = Behind-none Fits f fs out told
Finds-suc (some k) Fits f fs out told = (told.0, Behind-some Fits f fs out k told.1)

find_in_lem :
    (m : Memory) (fs : List PciFunction) (class subclass interface : ℕ)
    → Finds (find_in m fs class subclass interface) (HasClass m class subclass interface) fs
unfolding find_in
find_in_lem m [] class subclass interface = λ k f at fits. at
find_in_lem m (f ∷ fs) class subclass interface =
    let more = λ (out : ¬ HasClass m class subclass interface f).
      Finds-suc (find_in m fs class subclass interface) (HasClass m class subclass interface) f fs
        out (find_in_lem m fs class subclass interface) in
    elim (eq_or_ne (device_class m f.base) class) [
      | inr ne ↦ rw (==_of_ne _ _ ne) (more (λ h. ne h.0))
      | inl e ↦ elim (eq_or_ne (device_subclass m f.base) subclass) [
        | inr ne ↦ rw (==_of_eq _ _ e, ==_of_ne _ _ ne) (more (λ h. ne h.1))
        | inl e2 ↦ elim (eq_or_ne (program_interface m f.base) interface) [
          | inr ne ↦ rw (==_of_eq _ _ e, ==_of_eq _ _ e2, ==_of_ne _ _ ne) (more (λ h. ne h.2))
          | inl e3 ↦
              rw (==_of_eq _ _ e, ==_of_eq _ _ e2, ==_of_eq _ _ e3)
                ((f, refl, (e, e2, e3)), λ j g less. absurd (omega arith))
        ]
      ]
    ]

-- If `find_device` returns an entry, it has the class, subclass and interface, and no entry before
-- it has; if it returns NULL, no entry of the cache has.
pub find_device_lem :
    (class subclass interface : ℕ) (s : Pci)
    → Finds
        (find_device class subclass interface s)
        (HasClass s.memory class subclass interface)
        s.cache
unfolding find_device
find_device_lem class subclass interface s = find_in_lem s.memory s.cache class subclass interface
