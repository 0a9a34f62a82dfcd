-- ===== src/Beacons/Catalog/Clock.antt =====
-- Slots and cycles on the clock.
use ham_spectrum_analysis.Prelude.{ℕ, ◌+◌, ◌*◌, ◌/◌, ◌%◌, ◌≡◌, ◌≤◌, ◌<◌, arith}
use ham_spectrum_analysis.Beacons.Catalog.{
  slot_seconds, slots_per_cycle, current_slot_index, current_cycle_window, next_slot_start,
}

-- At every time: the slot is one of the 18, the time lies in its cycle's window at that slot, the
-- next slot starts later and within 10 seconds, at a multiple of 10 seconds, and the slot there is
-- the one behind this slot in the cycle.
current_slot_index-next_slot_start :
    (epoch_s : ℕ)
    → let (cycle_start, cycle_end) = current_cycle_window epoch_s in
      let slot = current_slot_index epoch_s in
      (slot < slots_per_cycle)
      × (cycle_start + slot * slot_seconds ≤ epoch_s)
      × (epoch_s < cycle_start + (slot + 1) * slot_seconds)
      × (cycle_start + (slot + 1) * slot_seconds ≤ cycle_end)
      × (epoch_s < next_slot_start epoch_s)
      × (next_slot_start epoch_s ≤ epoch_s + slot_seconds)
      × (next_slot_start epoch_s % slot_seconds ≡ 0)
      × (current_slot_index (next_slot_start epoch_s) ≡ (slot + 1) % slots_per_cycle)
unfolding current_slot_index current_cycle_window next_slot_start
current_slot_index-next_slot_start epoch_s = omega arith

pub current_slot_index_lem :
    (epoch_s : ℕ) → current_slot_index epoch_s ≡ epoch_s / slot_seconds % slots_per_cycle
unfolding current_slot_index
current_slot_index_lem epoch_s = omega arith
