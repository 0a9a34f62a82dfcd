-- ===== src/Retention/Tables/Batches.antt =====
-- A deletion in batches is one deletion.
use ham_spectrum_analysis.Prelude.{
  ℕ, zero, suc, ◌+◌, ◌-◌, ◌≡◌, ◌≤◌, refl, sym, ap, ◌∙◌, ◌||◌, List, [], ◌∷◌, ◌++◌, length,
  length-drop, take-drop, take, drop, arith,
}
use ham_spectrum_analysis.Retention.Tables.{
  EventRow, EventTables, member, without_ids, delete_batch, delete_batch_size,
  delete_ids_in_batches, delete_events_by_ids,
}

member-append : (x : ℕ) (a b : List ℕ) → member x (a ++ b) ≡ member x a || member x b
member-append x [] b = refl
member-append x (y ∷ a) b = ground (arith, member-append x a b)

without_ids-append :
    (a b : List ℕ) (rows : List EventRow)
    → without_ids (a ++ b) rows ≡ without_ids b (without_ids a rows)
without_ids-append a b [] = refl
without_ids-append a b (row ∷ rows) =
    ground (arith, member-append row.id a b, without_ids-append a b rows)

without_ids-nil : (rows : List EventRow) → without_ids [] rows ≡ rows
without_ids-nil [] = refl
without_ids-nil (row ∷ rows) = ap (λ l. row ∷ l) (without_ids-nil rows)

pub length-without_ids :
    (ids : List ℕ) (rows : List EventRow) → length (without_ids ids rows) ≤ length rows
length-without_ids ids [] = omega arith
length-without_ids ids (row ∷ rows) = ground (arith, length-without_ids ids rows)

-- With rounds enough, the batches delete what one deletion does, and count it.
delete_ids_in_batches_lem :
    (rounds : ℕ) (ids : List ℕ) (rows : List EventRow)
    → length ids ≤ rounds
    → delete_ids_in_batches rounds ids rows ≡ delete_batch ids rows
unfolding delete_ids_in_batches
delete_ids_in_batches_lem zero [] rows h = ground (arith, without_ids-nil rows)
delete_ids_in_batches_lem zero (i ∷ ids) rows h = absurd (omega arith)
delete_ids_in_batches_lem (suc rounds) [] rows h = ground (arith, without_ids-nil rows)
delete_ids_in_batches_lem (suc rounds) (i ∷ ids) rows h =
    let batch = take delete_batch_size (i ∷ ids) in
    let others = drop delete_batch_size (i ∷ ids) in
    let left = without_ids batch rows in
    let fewer : length others ≤ rounds = omega (arith, length-drop delete_batch_size (i ∷ ids)) in
    let whole : without_ids others left ≡ without_ids (i ∷ ids) rows =
      sym (without_ids-append batch others rows)
      ∙ ap (λ l. without_ids l rows) (take-drop delete_batch_size (i ∷ ids)) in
    let gone = length rows - length left in
    let all_gone = without_ids (i ∷ ids) rows in
    ap (λ r. (gone + r.0, r.1)) (delete_ids_in_batches_lem rounds others left fewer)
    ∙ ap (λ w. (gone + (length left - length w), w)) whole
    ∙ ap (λ n. (n, all_gone))
        (omega
          (arith, length-without_ids batch rows, length-without_ids others left, ap length whole))

pub delete_events_by_ids_lem :
    (occ_ids call_ids : List ℕ) (tables : EventTables)
    → delete_events_by_ids occ_ids call_ids tables ≡ (
      length tables.occ
          - length (without_ids occ_ids tables.occ)
          + (length tables.call - length (without_ids call_ids tables.call)),
      record { occ = without_ids occ_ids tables.occ; call = without_ids call_ids tables.call },
    )
unfolding delete_events_by_ids
delete_events_by_ids_lem occ_ids call_ids tables =
    let occ = delete_ids_in_batches_lem (length occ_ids) occ_ids tables.occ (omega arith) in
    let call = delete_ids_in_batches_lem (length call_ids) call_ids tables.call (omega arith) in
    ap
      (λ d. (
        d.0 + (delete_ids_in_batches (length call_ids) call_ids tables.call).0,
        record {
          occ = d.1;
          call = (delete_ids_in_batches (length call_ids) call_ids tables.call).1;
        },
      ))
      occ
    ∙ ap
        (λ d. (
          length tables.occ - length (without_ids occ_ids tables.occ) + d.0,
          record { occ = without_ids occ_ids tables.occ; call = d.1 },
        ))
        call
