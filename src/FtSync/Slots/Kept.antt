-- ===== src/FtSync/Slots/Kept.antt =====
-- Which slots the clean-up keeps: the newest, as many as the tracker has room for.
use ham_spectrum_analysis.Prelude.{
  ℕ, zero, suc, ◌+◌, ◌≡◌, ◌≤◌, ◌<◌, ◌⊎◌, ◌↔◌, inl, inr, min, refl, ap, List, [], ◌∷◌, length, take,
  In, In-All, Distinct, leb, arith, Bool-cases, length-le_of_In, In-take, take-Distinct,
  length-take, any-==_iff, All,
}
use ham_spectrum_analysis.FtSync.Slots.{Slot, insert_epoch, newest_first, keep_slots, cleanup_slots}

abbrev pub epochs : List Slot → List ℕ
epochs [] = []
epochs (slot ∷ slots) = slot.slot_epoch ∷ epochs slots

-- Each number is at most the ones before it.
abbrev Falling : List ℕ → Type 0
Falling [] = Unit
Falling (e ∷ es) = All (λ f. f ≤ e) es × Falling es

In-insert_epoch_iff : (x e : ℕ) (es : List ℕ) → In x (insert_epoch e es) ↔ ((x ≡ e) ⊎ In x es)
In-insert_epoch_iff x e [] = ground arith
In-insert_epoch_iff x e (f ∷ es) = ground (arith, In-insert_epoch_iff x e es)

In-newest_first_iff : (x : ℕ) (slots : List Slot) → In x (newest_first slots) ↔ In x (epochs slots)
In-newest_first_iff x [] = ground arith
In-newest_first_iff x (slot ∷ slots) =
    ground (
      arith,
      In-newest_first_iff x slots,
      In-insert_epoch_iff x slot.slot_epoch (newest_first slots),
    )

All-weaker : (a b : ℕ) (es : List ℕ) → a ≤ b → All (λ f. f ≤ a) es → All (λ f. f ≤ b) es
All-weaker a b [] h k = tt
All-weaker a b (e ∷ es) h k = (omega (arith, k.0), All-weaker a b es h k.1)

All-insert_epoch :
    (b e : ℕ) (es : List ℕ) → e ≤ b → All (λ f. f ≤ b) es → All (λ f. f ≤ b) (insert_epoch e es)
All-insert_epoch b e [] h k = (h, tt)
All-insert_epoch b e (f ∷ es) h k = ground (arith, h, k, All-insert_epoch b e es h k.1)

insert_epoch-Falling : (e : ℕ) (es : List ℕ) → Falling es → Falling (insert_epoch e es)
insert_epoch-Falling e [] d = (tt, tt)
insert_epoch-Falling e (f ∷ es) d =
    ground (arith, d, All-weaker f e es, All-insert_epoch f e es, insert_epoch-Falling e es d.1)

newest_first-Falling : (slots : List Slot) → Falling (newest_first slots)
newest_first-Falling [] = tt
newest_first-Falling (slot ∷ slots) =
    insert_epoch-Falling slot.slot_epoch (newest_first slots) (newest_first-Falling slots)

insert_epoch-Distinct :
    (e : ℕ) (es : List ℕ) → ¬ In e es → Distinct es → Distinct (insert_epoch e es)
insert_epoch-Distinct e [] h d = (h, d)
insert_epoch-Distinct e (f ∷ es) h d =
    ground
      (arith, h, d, In-insert_epoch_iff f e es, insert_epoch-Distinct e es (λ m. h (inr m)) d.1)

newest_first-Distinct :
    (slots : List Slot) → Distinct (epochs slots) → Distinct (newest_first slots)
newest_first-Distinct [] d = tt
newest_first-Distinct (slot ∷ slots) d =
    insert_epoch-Distinct slot.slot_epoch (newest_first slots)
      (λ m. d.0 ((In-newest_first_iff slot.slot_epoch slots).0 m)) (newest_first-Distinct slots d.1)

-- What is cut off lies below all that is kept.
below-take :
    (n x k : ℕ) (es : List ℕ) → Falling es → In x es → ¬ In x (take n es) → In k (take n es) → x < k
below-take zero x k es f m h mk = absurd mk
below-take (suc n) x k [] f m h mk = absurd mk
below-take (suc n) x k (e ∷ es) f (inl q) h mk = absurd (h (inl q))
below-take (suc n) x k (e ∷ es) f (inr m) h (inl q) =
    grind (arith, In-All (λ f. f ≤ e) x es f.0 m, h, q)
below-take (suc n) x k (e ∷ es) f (inr m) h (inr mk) = below-take n x k es f.1 m (λ t. h (inr t)) mk

In-keep_slots_iff :
    (keep : List ℕ) (x : ℕ) (slots : List Slot)
    → In x (epochs (keep_slots keep slots)) ↔ (In x (epochs slots) × In x keep)
In-keep_slots_iff keep x [] = ground arith
In-keep_slots_iff keep x (slot ∷ slots) =
    ground (arith, any-==_iff slot.slot_epoch keep, In-keep_slots_iff keep x slots)

keep_slots-Distinct :
    (keep : List ℕ) (slots : List Slot)
    → Distinct (epochs slots)
    → Distinct (epochs (keep_slots keep slots))
keep_slots-Distinct keep [] d = tt
keep_slots-Distinct keep (slot ∷ slots) d =
    ground
      (arith, d, In-keep_slots_iff keep slot.slot_epoch slots, keep_slots-Distinct keep slots d.1)

length-epochs : (slots : List Slot) → length (epochs slots) ≡ length slots
length-epochs [] = refl
length-epochs (slot ∷ slots) = ap suc (length-epochs slots)

length-insert_epoch : (e : ℕ) (es : List ℕ) → length (insert_epoch e es) ≡ 1 + length es
length-insert_epoch e [] = refl
length-insert_epoch e (f ∷ es) = ground (arith, length-insert_epoch e es)

length-newest_first : (slots : List Slot) → length (newest_first slots) ≡ length slots
length-newest_first [] = refl
length-newest_first (slot ∷ slots) =
    omega
      (arith, length-insert_epoch slot.slot_epoch (newest_first slots), length-newest_first slots)

-- As many slots as there is room for, and every slot that went is older than each one kept.
abbrev pub IsNewest : (max_slots : ℕ) → (slots kept : List Slot) → Type 0
IsNewest max_slots slots kept =
    (length kept ≡ min max_slots (length slots))
    × Distinct (epochs kept)
    × ((x : ℕ) → In x (epochs kept) → In x (epochs slots))
    × ((x k : ℕ) → In x (epochs slots) → ¬ In x (epochs kept) → In k (epochs kept) → x < k)

module _ (n : ℕ) (slots : List Slot) (d : Distinct (epochs slots)) where
  keep : List ℕ
  keep = take n (newest_first slots)

  kept_iff : (x : ℕ) → In x (epochs (keep_slots keep slots)) ↔ In x keep
  unfolding keep
  kept_iff x = ground (
    arith,
    In-keep_slots_iff keep x slots,
    In-newest_first_iff x slots,
    In-take n x (newest_first slots),
  )

  length-kept : length (keep_slots keep slots) ≡ min n (length slots)
  unfolding keep
  length-kept =
      let kept = epochs (keep_slots keep slots) in
      let unique = take-Distinct n (newest_first slots) (newest_first-Distinct slots d) in
      omega (
        arith,
        length-epochs (keep_slots keep slots),
        length-newest_first slots,
        length-take n (newest_first slots),
        length-le_of_In kept keep (keep_slots-Distinct keep slots d) (λ x. (kept_iff x).0),
        length-le_of_In keep kept unique (λ x. (kept_iff x).1),
      )

  keep_slots-IsNewest : IsNewest n slots (keep_slots keep slots)
  unfolding keep
  keep_slots-IsNewest = (
    length-kept,
    keep_slots-Distinct keep slots d,
    λ x m. ((In-keep_slots_iff keep x slots).0 m).0,
    λ x k m gone mk.
        below-take n x k (newest_first slots) (newest_first-Falling slots)
          ((In-newest_first_iff x slots).1 m) (λ t. gone ((kept_iff x).1 t)) ((kept_iff k).0 mk),
  )

  -- The clean-up keeps the newest slots, as many as there is room for.
  pub cleanup_slots-IsNewest : IsNewest n slots (cleanup_slots n slots)
  unfolding cleanup_slots keep
  cleanup_slots-IsNewest = elim (Bool-cases (leb (length slots) n)) [
    | inl h ↦ rw h (grind arith, d, λ x m. m, λ x k m gone mk. absurd (gone m))
    | inr h ↦ rw h keep_slots-IsNewest
  ]
