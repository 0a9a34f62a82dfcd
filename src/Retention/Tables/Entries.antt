-- ===== src/Retention/Tables/Entries.antt =====
-- The keys of the entries of one table.
use ham_spectrum_analysis.Prelude.{
  ℕ, zero, suc, ◌+◌, ◌≡◌, ◌⊎◌, ◌↔◌, inl, inr, refl, sym, ap, subst, Bool, true, false, List, [],
  ◌∷◌, ◌++◌, length, take, In, Distinct, if◌then◌else◌, arith, Bool-cases,
}
use ham_spectrum_analysis.Retention.Tables.{
  EventRow, Entry, ids_of, tagged, insert_entry, newest_entries, is_same, keys_of,
}

pub In-keys_of :
    (t : Bool) (x : Entry) (es : List Entry)
    → In x es
    → is_same t x.is_occ ≡ true
    → In x.row.id (keys_of t es)
In-keys_of t x [] m h = absurd m
In-keys_of t x (e ∷ es) (inl q) h =
    let tag : is_same t e.is_occ ≡ true = subst (λ y. is_same t y.is_occ ≡ true) q h in
    ground (arith, tag, ap (λ y. y.row.id) q)
In-keys_of t x (e ∷ es) (inr m) h = ground (arith, In-keys_of t x es m h)

pub keys_of-In :
    (t : Bool) (k : ℕ) (es : List Entry)
    → In k (keys_of t es)
    → (x : Entry) × In x es × (is_same t x.is_occ ≡ true) × (x.row.id ≡ k)
keys_of-In t k [] m = absurd m
keys_of-In t k (e ∷ es) m = elim (Bool-cases (is_same t e.is_occ)) [
  | inl h ↦
      let split : (k ≡ e.row.id) ⊎ In k (keys_of t es) = ground (arith, m, h) in
      elim split [
        | inl q ↦ (e, inl refl, h, sym q)
        | inr n ↦ let (x, i, tag, q) = keys_of-In t k es n in (x, inr i, tag, q)
      ]
  | inr h ↦ let (x, n, tag, q) = keys_of-In t k es (ground (arith, m, h)) in (x, inr n, tag, q)
]

In-keys_of-insert :
    (t : Bool) (k : ℕ) (e : Entry) (es : List Entry)
    → In k (keys_of t (insert_entry e es)) ↔ In k (keys_of t (e ∷ es))
In-keys_of-insert t k e [] = ground arith
In-keys_of-insert t k e (f ∷ es) = ground (arith, In-keys_of-insert t k e es)

insert_entry-Distinct :
    (t : Bool) (e : Entry) (es : List Entry)
    → Distinct (keys_of t (e ∷ es))
    → Distinct (keys_of t (insert_entry e es))
insert_entry-Distinct t e [] d = d
insert_entry-Distinct t e (f ∷ es) d =
    ground (arith, d, In-keys_of-insert t f.row.id e es, insert_entry-Distinct t e es)

In-newest_keys_iff :
    (t : Bool) (k : ℕ) (es : List Entry)
    → In k (keys_of t (newest_entries es)) ↔ In k (keys_of t es)
In-newest_keys_iff t k [] = ground arith
In-newest_keys_iff t k (e ∷ es) =
    ground (arith, In-keys_of-insert t k e (newest_entries es), In-newest_keys_iff t k es)

pub newest_entries-Distinct :
    (t : Bool) (es : List Entry)
    → Distinct (keys_of t es)
    → Distinct (keys_of t (newest_entries es))
newest_entries-Distinct t [] d = tt
newest_entries-Distinct t (e ∷ es) d =
    insert_entry-Distinct t e (newest_entries es)
      (ground (arith, d, In-newest_keys_iff t e.row.id es, newest_entries-Distinct t es))

pub In-take_entries : (n : ℕ) (x : Entry) (es : List Entry) → In x (take n es) → In x es
In-take_entries zero x es m = absurd m
In-take_entries (suc n) x [] m = m
In-take_entries (suc n) x (e ∷ es) (inl q) = inl q
In-take_entries (suc n) x (e ∷ es) (inr m) = inr (In-take_entries n x es m)

In-take_keys :
    (t : Bool) (n k : ℕ) (es : List Entry) → In k (keys_of t (take n es)) → In k (keys_of t es)
In-take_keys t n k es m =
    let (x, i, tag, q) = keys_of-In t k (take n es) m in
    subst (λ j. In j (keys_of t es)) q (In-keys_of t x es (In-take_entries n x es i) tag)

pub take-keys-Distinct :
    (t : Bool) (n : ℕ) (es : List Entry)
    → Distinct (keys_of t es)
    → Distinct (keys_of t (take n es))
take-keys-Distinct t zero es d = tt
take-keys-Distinct t (suc n) [] d = tt
take-keys-Distinct t (suc n) (e ∷ es) d =
    ground (arith, d, In-take_keys t n e.row.id es, take-keys-Distinct t n es)

-- Every entry is of one of the two tables.
pub length-keys_of :
    (es : List Entry) → length (keys_of true es) + length (keys_of false es) ≡ length es
length-keys_of [] = refl
length-keys_of (e ∷ es) = ground (arith, length-keys_of es)

pub keys_of-append : (t : Bool) (a b : List Entry) → keys_of t (a ++ b) ≡ keys_of t a ++ keys_of t b
keys_of-append t [] b = refl
keys_of-append t (e ∷ a) b = ground (arith, keys_of-append t a b)

pub keys_of-tagged :
    (t u : Bool) (rows : List EventRow)
    → keys_of t (tagged u rows) ≡ (if is_same t u then ids_of rows else [])
keys_of-tagged true true [] = refl
keys_of-tagged true false [] = refl
keys_of-tagged false true [] = refl
keys_of-tagged false false [] = refl
keys_of-tagged true true (r ∷ rows) = ap (λ l. r.id ∷ l) (keys_of-tagged true true rows)
keys_of-tagged true false (r ∷ rows) = keys_of-tagged true false rows
keys_of-tagged false true (r ∷ rows) = keys_of-tagged false true rows
keys_of-tagged false false (r ∷ rows) = ap (λ l. r.id ∷ l) (keys_of-tagged false false rows)
