-- ===== src/Pci/Space.antt =====
-- Reads and writes of the configuration space, kernel/src/iodev/pci/confrw.c: which accesses of the
-- device they come to.
use skylight.Base.{
  ℕ, ◌++◌, ◌≡◌, ◌∙◌, ◌⊎◌, refl, sym, ap, inl, inr, true, not, List, [], ◌∷◌, some, if_false,
  eq_or_ne, ==_of_eq, ==_of_ne, add64,
}
use skylight.Pci.{
  PciFunction, Pci, FunctionPlace, Device, unless_at, write_from, read_from, loaded, conf_write,
  conf_read,
}
use skylight.Pci.Cache.{Elem}

-- The function has the numbers of the place.
abbrev pub IsAt : PciFunction → FunctionPlace → Type 0
IsAt f place =
    (f.segment ≡ place.segment)
    × (f.bus ≡ place.bus)
    × (f.device ≡ place.device)
    × (f.function ≡ place.function)

module _ {A : Type 0} (f : PciFunction) (place : FunctionPlace) (next here : A) where
  unless_at-here : IsAt f place → unless_at f place next here ≡ here
  unfolding unless_at
  unless_at-here (a, b, c, d) = rw (==_of_eq _ _ a, ==_of_eq _ _ b, ==_of_eq _ _ c, ==_of_eq _ _ d)

  unless_at-cases :
      (IsAt f place × (unless_at f place next here ≡ here))
      ⊎ ((¬ IsAt f place) × (unless_at f place next here ≡ next))
  unfolding unless_at
  unless_at-cases = elim (eq_or_ne f.segment place.segment) [
    | inr ne ↦ inr (λ h. ne h.0, rw (==_of_ne _ _ ne))
    | inl a ↦ elim (eq_or_ne f.bus place.bus) [
      | inr ne ↦ inr (λ h. ne h.1, rw (==_of_eq _ _ a, ==_of_ne _ _ ne))
      | inl b ↦ elim (eq_or_ne f.device place.device) [
        | inr ne ↦ inr (λ h. ne h.2, rw (==_of_eq _ _ a, ==_of_eq _ _ b, ==_of_ne _ _ ne))
        | inl c ↦ elim (eq_or_ne f.function place.function) [
          | inr ne ↦
              inr
                (λ h. ne h.3, rw (==_of_eq _ _ a, ==_of_eq _ _ b, ==_of_eq _ _ c, ==_of_ne _ _ ne))
          | inl d ↦ inl ((a, b, c, d), unless_at-here (a, b, c, d))
        ]
      ]
    ]
  ]

module _ {A : Type 0} (f : PciFunction) (place : FunctionPlace) (next here : A) where
  unless_at-there : (¬ IsAt f place) → unless_at f place next here ≡ next
  unless_at-there out = elim (unless_at-cases f place next here) [
    | inl x ↦ absurd (out x.0)
    | inr x ↦ x.1
  ]

-- The functions of the cache that have the numbers, in their order.
abbrev pub matching : FunctionPlace → List PciFunction → List PciFunction
matching place [] = []
matching place (f ∷ fs) = unless_at f place (matching place fs) (f ∷ matching place fs)

module _ {D : Type 0} (device : Device D) where
  -- A write for each of the functions, in their order.
  abbrev pub write_each : (bytes : ℕ) → List PciFunction → (offset value : ℕ) → D → D
  write_each bytes [] offset value d = d
  write_each bytes (f ∷ fs) offset value d =
      write_each bytes fs offset value (device.write bytes (add64 f.base offset) value d)

  -- A read of the first function; 0 where there is none.
  abbrev pub read_first : (bytes : ℕ) → List PciFunction → (offset : ℕ) → D → ℕ × D
  read_first bytes [] offset d = (0, d)
  read_first bytes (f ∷ fs) offset d = device.read bytes (add64 f.base offset) d

  module _ (n : ℕ) (place : FunctionPlace) (offset : ℕ) where
    write_from-matching :
        (v : ℕ) (fs : List PciFunction) (d : D)
        → write_from device n fs place offset v d ≡ write_each n (matching place fs) offset v d
    unfolding write_from
    write_from-matching v [] d = refl
    write_from-matching v (f ∷ fs) d =
        let d' = device.write n (add64 f.base offset) v d in
        elim (unless_at-cases f place (matching place fs) (f ∷ matching place fs)) [
          | inl x ↦
              ap (write_from device n fs place offset v) (unless_at-here f place d d' x.0)
              ∙ write_from-matching v fs d'
              ∙ sym (ap (λ l. write_each n l offset v d) x.1)
          | inr x ↦
              ap (write_from device n fs place offset v) (unless_at-there f place d d' x.0)
              ∙ write_from-matching v fs d
              ∙ sym (ap (λ l. write_each n l offset v d) x.1)
        ]

    read_from-matching :
        (fs : List PciFunction) (d : D)
        → read_from device n fs place offset d ≡ read_first n (matching place fs) offset d
    unfolding read_from
    read_from-matching [] d = refl
    read_from-matching (f ∷ fs) d =
        let rest = read_from device n fs place offset d in
        let here = device.read n (add64 f.base offset) d in
        elim (unless_at-cases f place (matching place fs) (f ∷ matching place fs)) [
          | inl x ↦
              unless_at-here f place rest here x.0 ∙ sym (ap (λ l. read_first n l offset d) x.1)
          | inr x ↦
              unless_at-there f place rest here x.0
              ∙ read_from-matching fs d
              ∙ sym (ap (λ l. read_first n l offset d) x.1)
        ]

loaded-ready :
    (rounds rsdp signature : ℕ) (s : Pci)
    → s.cached ≡ true
    → loaded rounds rsdp signature s ≡ some s
unfolding loaded
loaded-ready rounds rsdp signature s e = if_false (not s.cached) _ (some s) (ap not e)

-- The four numbers of a function that the cache holds once.
abbrev pub IsOnly : FunctionPlace → (f : PciFunction) → List PciFunction → Type 0
IsOnly place f fs =
    (front back : List PciFunction) × (fs ≡ front ++ f ∷ back)
    × IsAt f place
    × ((g : PciFunction) → Elem g front → ¬ IsAt g place)
    × ((g : PciFunction) → Elem g back → ¬ IsAt g place)

matching-none :
    (place : FunctionPlace) (fs : List PciFunction)
    → ((g : PciFunction) → Elem g fs → ¬ IsAt g place)
    → matching place fs ≡ []
matching-none place [] out = refl
matching-none place (f ∷ fs) out =
    unless_at-there f place (matching place fs) (f ∷ matching place fs) (out f (inl refl))
    ∙ matching-none place fs (λ g h. out g (inr h))

matching-only :
    (place : FunctionPlace) (f : PciFunction) (front back : List PciFunction)
    → IsAt f place
    → ((g : PciFunction) → Elem g front → ¬ IsAt g place)
    → ((g : PciFunction) → Elem g back → ¬ IsAt g place)
    → matching place (front ++ f ∷ back) ≡ f ∷ []
matching-only place f [] back at before behind =
    unless_at-here f place (matching place back) (f ∷ matching place back) at
    ∙ ap (λ l. f ∷ l) (matching-none place back behind)
matching-only place f (g ∷ front) back at before behind =
    let rest = matching place (front ++ f ∷ back) in
    unless_at-there g place rest (g ∷ rest) (before g (inl refl))
    ∙ matching-only place f front back at (λ k h. before k (inr h)) behind

-- With a loaded cache in which exactly one function has the four numbers, and whatever the device
-- does when it is read or written, a write to configuration space is one write of the device, of
-- as many bytes, at the function's base and the offset, and a read behind it is one read at the
-- same address, whose value is returned; the cache stays.
pub conf_read-conf_write :
    {D : Type 0}
    → (device : Device D) (rounds rsdp signature n : ℕ) (place : FunctionPlace) (offset v : ℕ)
      (s : Pci) (d : D) (f : PciFunction)
    → s.cached ≡ true
    → IsOnly place f s.cache
    → let address = add64 f.base offset in
      let written = device.write n address v d in
      (conf_write device rounds rsdp signature n place offset v (s, d) ≡ some (s, written))
      × (conf_read device rounds rsdp signature n place offset (s, written)
          ≡ some ((device.read n address written).0, s, (device.read n address written).1))
unfolding conf_write conf_read
conf_read-conf_write device rounds rsdp signature n place offset v s d f ready
      (front, back, e, at, before, behind) =
    let written = device.write n (add64 f.base offset) v d in
    let only = ap (matching place) e ∙ matching-only place f front back at before behind in
    let writes =
      write_from-matching device n place offset v s.cache d
      ∙ ap (λ l. write_each device n l offset v d) only in
    let reads =
      read_from-matching device n place offset s.cache written
      ∙ ap (λ l. read_first device n l offset written) only in
    (
      rw (conf_write, loaded-ready rounds rsdp signature s ready) (ap (λ k. some (s, k)) writes),
      rw (conf_read, loaded-ready rounds rsdp signature s ready)
          (ap (λ k. some (k.0, s, k.1)) reads),
    )

-- With no function of the cache at a place, nothing is asked of the device, and a read gives 0.
conf_space-absent :
    {D : Type 0}
    → (device : Device D) (rounds rsdp signature n : ℕ) (place : FunctionPlace) (offset v : ℕ)
      (s : Pci) (d : D)
    → s.cached ≡ true
    → ((g : PciFunction) → Elem g s.cache → ¬ IsAt g place)
    → (conf_write device rounds rsdp signature n place offset v (s, d) ≡ some (s, d))
      × (conf_read device rounds rsdp signature n place offset (s, d) ≡ some (0, s, d))
unfolding conf_write conf_read
conf_space-absent device rounds rsdp signature n place offset v s d ready out =
    let none_at = matching-none place s.cache out in
    let writes =
      write_from-matching device n place offset v s.cache d
      ∙ ap (λ l. write_each device n l offset v d) none_at in
    let reads =
      read_from-matching device n place offset s.cache d
      ∙ ap (λ l. read_first device n l offset d) none_at in
    (
      rw (conf_write, loaded-ready rounds rsdp signature s ready) (ap (λ k. some (s, k)) writes),
      rw (conf_read, loaded-ready rounds rsdp signature s ready)
          (ap (λ k. some (k.0, s, k.1)) reads),
    )
