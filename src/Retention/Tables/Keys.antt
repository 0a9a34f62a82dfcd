-- ===== src/Retention/Tables/Keys.antt =====
-- The keys of sorted, tagged and filtered rows.
use ham_spectrum_analysis.Prelude.{
  ℕ, suc, ◌≡◌, ◌⊎◌, ◌↔◌, inl, inr, refl, sym, ap, subst, ◌∙◌, false, List, [], ◌∷◌, length, In,
  Distinct, arith,
}
use ham_spectrum_analysis.Retention.Tables.{
  EventRow, Entry, ids_of, member, insert_row, by_timestamp, insert_entry, newest_entries,
  without_ids,
}

In-insert_row_iff :
    (x e : EventRow) (es : List EventRow) → In x (insert_row e es) ↔ ((x ≡ e) ⊎ In x es)
In-insert_row_iff x e [] = ground arith
In-insert_row_iff x e (f ∷ es) = ground (arith, In-insert_row_iff x e es)

pub In-by_timestamp_iff : (x : EventRow) (es : List EventRow) → In x (by_timestamp es) ↔ In x es
In-by_timestamp_iff x [] = ground arith
In-by_timestamp_iff x (e ∷ es) =
    ground (arith, In-by_timestamp_iff x es, In-insert_row_iff x e (by_timestamp es))

pub length-by_timestamp : (es : List EventRow) → length (by_timestamp es) ≡ length es
length-by_timestamp [] = refl
length-by_timestamp (e ∷ es) = longer e (by_timestamp es) ∙ ap suc (length-by_timestamp es)
  where
    longer : (e : EventRow) (es : List EventRow) → length (insert_row e es) ≡ suc (length es)
    longer e [] = refl
    longer e (f ∷ es) = ground (arith, longer e es)

In-insert_entry_iff :
    (x e : Entry) (es : List Entry) → In x (insert_entry e es) ↔ ((x ≡ e) ⊎ In x es)
In-insert_entry_iff x e [] = ground arith
In-insert_entry_iff x e (f ∷ es) = ground (arith, In-insert_entry_iff x e es)

pub In-newest_entries_iff : (x : Entry) (es : List Entry) → In x (newest_entries es) ↔ In x es
In-newest_entries_iff x [] = ground arith
In-newest_entries_iff x (e ∷ es) =
    ground (arith, In-newest_entries_iff x es, In-insert_entry_iff x e (newest_entries es))

pub length-newest_entries : (es : List Entry) → length (newest_entries es) ≡ length es
length-newest_entries [] = refl
length-newest_entries (e ∷ es) = longer e (newest_entries es) ∙ ap suc (length-newest_entries es)
  where
    longer : (e : Entry) (es : List Entry) → length (insert_entry e es) ≡ suc (length es)
    longer e [] = refl
    longer e (f ∷ es) = ground (arith, longer e es)

pub In-without_ids_iff :
    (ids : List ℕ) (x : EventRow) (rows : List EventRow)
    → In x (without_ids ids rows) ↔ (In x rows × (member x.id ids ≡ false))
In-without_ids_iff ids x [] = ground arith
In-without_ids_iff ids x (r ∷ rows) =
    let alike : x ≡ r → member x.id ids ≡ member r.id ids = λ q. ap (λ y. member y.id ids) q in
    ground (arith, alike, In-without_ids_iff ids x rows)

pub In-ids_of : (x : EventRow) (rows : List EventRow) → In x rows → In x.id (ids_of rows)
In-ids_of x (r ∷ rows) (inl e) = inl (ap (λ y. y.id) e)
In-ids_of x (r ∷ rows) (inr m) = inr (In-ids_of x rows m)
In-ids_of x [] m = m

pub ids_of-In :
    (k : ℕ) (rows : List EventRow) → In k (ids_of rows) → (x : EventRow) × In x rows × (x.id ≡ k)
ids_of-In k [] m = absurd m
ids_of-In k (r ∷ rows) (inl e) = (r, inl refl, sym e)
ids_of-In k (r ∷ rows) (inr m) = let (x, n, e) = ids_of-In k rows m in (x, inr n, e)

-- A key belongs to one row.
pub same_row :
    (a b : EventRow) (rows : List EventRow)
    → Distinct (ids_of rows)
    → In a rows
    → In b rows
    → a.id ≡ b.id
    → a ≡ b
same_row a b [] d m n e = absurd m
same_row a b (r ∷ rows) d (inl p) (inl q) e = p ∙ sym q
same_row a b (r ∷ rows) d (inl p) (inr n) e =
    absurd (d.0 (subst (λ k. In k (ids_of rows)) (sym e ∙ ap (λ y. y.id) p) (In-ids_of b rows n)))
same_row a b (r ∷ rows) d (inr m) (inl q) e =
    absurd (d.0 (subst (λ k. In k (ids_of rows)) (e ∙ ap (λ y. y.id) q) (In-ids_of a rows m)))
same_row a b (r ∷ rows) d (inr m) (inr n) e = same_row a b rows d.1 m n e

pub without_ids-Distinct :
    (ids : List ℕ) (rows : List EventRow)
    → Distinct (ids_of rows)
    → Distinct (ids_of (without_ids ids rows))
without_ids-Distinct ids [] d = tt
without_ids-Distinct ids (r ∷ rows) d =
    let fewer : In r.id (ids_of (without_ids ids rows)) → In r.id (ids_of rows) = λ m.
      let (x, n, e) = ids_of-In r.id (without_ids ids rows) m in
      subst (λ k. In k (ids_of rows)) e
        (In-ids_of x rows ((In-without_ids_iff ids x rows).0 n).0) in
    ground (arith, d, fewer, without_ids-Distinct ids rows d.1)

pub length-ids_of : (rows : List EventRow) → length (ids_of rows) ≡ length rows
length-ids_of [] = refl
length-ids_of (r ∷ rows) = ap suc (length-ids_of rows)

In-ids_of-insert_row :
    (k : ℕ) (e : EventRow) (es : List EventRow)
    → In k (ids_of (insert_row e es)) ↔ ((k ≡ e.id) ⊎ In k (ids_of es))
In-ids_of-insert_row k e [] = ground arith
In-ids_of-insert_row k e (f ∷ es) = ground (arith, In-ids_of-insert_row k e es)

insert_row-Distinct :
    (e : EventRow) (es : List EventRow)
    → ¬ In e.id (ids_of es)
    → Distinct (ids_of es)
    → Distinct (ids_of (insert_row e es))
insert_row-Distinct e [] h d = (h, d)
insert_row-Distinct e (f ∷ es) h d =
    ground
      (arith, h, d, In-ids_of-insert_row f.id e es, insert_row-Distinct e es (λ m. h (inr m)) d.1)

pub by_timestamp-Distinct :
    (es : List EventRow) → Distinct (ids_of es) → Distinct (ids_of (by_timestamp es))
by_timestamp-Distinct [] d = tt
by_timestamp-Distinct (e ∷ es) d =
    insert_row-Distinct e (by_timestamp es) (λ m. d.0 (back m)) (by_timestamp-Distinct es d.1)
  where
    back : In e.id (ids_of (by_timestamp es)) → In e.id (ids_of es)
    back m =
        let (x, n, q) = ids_of-In e.id (by_timestamp es) m in
        subst (λ k. In k (ids_of es)) q (In-ids_of x es ((In-by_timestamp_iff x es).0 n))
