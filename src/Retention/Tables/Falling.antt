-- ===== src/Retention/Tables/Falling.antt =====
-- The order of entries by their timestamps, the newest first.
use ham_spectrum_analysis.Prelude.{
  ℕ, zero, suc, ◌≡◌, ◌⊎◌, inl, inr, refl, sym, subst, true, List, [], ◌∷◌, take, All, In, In-All,
  arith,
}
use ham_spectrum_analysis.Text.{Text, text_leb}
use ham_spectrum_analysis.Retention.Tables.{Entry, insert_entry, newest_entries}

text_leb_total : (s t : Text) → (text_leb s t ≡ true) ⊎ (text_leb t s ≡ true)
unfolding text_leb
text_leb_total [] t = inl refl
text_leb_total (a ∷ s) [] = inr refl
text_leb_total (a ∷ s) (b ∷ t) = ground (arith, text_leb_total s t)

text_leb_trans : (s t u : Text) → text_leb s t ≡ true → text_leb t u ≡ true → text_leb s u ≡ true
unfolding text_leb
text_leb_trans [] t u h k = refl
text_leb_trans (a ∷ s) [] u h k = ground (arith, h)
text_leb_trans (a ∷ s) (b ∷ t) [] h k = ground (arith, k)
text_leb_trans (a ∷ s) (b ∷ t) (c ∷ u) h k = ground (arith, h, k, text_leb_trans s t u)

-- An entry is no newer than another.
abbrev pub NoNewer : Entry → Entry → Type 0
NoNewer f e = text_leb f.row.timestamp e.row.timestamp ≡ true

abbrev pub Falling : List Entry → Type 0
Falling [] = Unit
Falling (e ∷ es) = All (λ f. NoNewer f e) es × Falling es

All-weaker :
    (a b : Entry) (es : List Entry)
    → NoNewer a b
    → All (λ f. NoNewer f a) es
    → All (λ f. NoNewer f b) es
All-weaker a b [] h k = tt
All-weaker a b (e ∷ es) h k =
    (text_leb_trans e.row.timestamp a.row.timestamp b.row.timestamp k.0 h, All-weaker a b es h k.1)

All-insert_entry :
    (b e : Entry) (es : List Entry)
    → NoNewer e b
    → All (λ f. NoNewer f b) es
    → All (λ f. NoNewer f b) (insert_entry e es)
All-insert_entry b e [] h k = (h, tt)
All-insert_entry b e (f ∷ es) h k = ground (arith, h, k, All-insert_entry b e es h k.1)

insert_entry-Falling : (e : Entry) (es : List Entry) → Falling es → Falling (insert_entry e es)
insert_entry-Falling e [] d = (tt, tt)
insert_entry-Falling e (f ∷ es) d = ground (
  arith,
  d,
  text_leb_total f.row.timestamp e.row.timestamp,
  All-weaker f e es,
  All-insert_entry f e es,
  insert_entry-Falling e es d.1,
)

pub newest_entries-Falling : (es : List Entry) → Falling (newest_entries es)
newest_entries-Falling [] = tt
newest_entries-Falling (e ∷ es) =
    insert_entry-Falling e (newest_entries es) (newest_entries-Falling es)

-- What is cut off is no newer than all that is kept.
pub below-take :
    (n : ℕ) (x k : Entry) (es : List Entry)
    → Falling es
    → In x es
    → ¬ In x (take n es)
    → In k (take n es)
    → NoNewer x k
below-take zero x k es f m h mk = absurd mk
below-take (suc n) x k [] f m h mk = absurd mk
below-take (suc n) x k (e ∷ es) f (inl q) h mk = absurd (h (inl q))
below-take (suc n) x k (e ∷ es) f (inr m) h (inl q) =
    subst (λ y. NoNewer x y) (sym q) (In-All (λ f. NoNewer f e) x es f.0 m)
below-take (suc n) x k (e ∷ es) f (inr m) h (inr mk) = below-take n x k es f.1 m (λ t. h (inr t)) mk
