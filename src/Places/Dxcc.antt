-- ===== src/Places/Dxcc.antt =====
-- `_load_dxcc_index` and `callsign_to_dxcc` of backend/app/dependencies/helpers.py. The index is a
-- function from a prefix to its entity, and what reading prefixes/dxcc_coords.json gives is an argument
-- (`none` when it fails).
pub mod Longest
pub mod Portable
use ham_spectrum_analysis.Prelude.{
  ℕ, zero, suc, ◌≡◌, Bool, ◌&&◌, Option, none, some, List, [], ◌∷◌, length, take, any, ◌==◌, min,
  if◌then◌else◌,
}
use ham_spectrum_analysis.Text.{Text, codes, same, strip, upper}

abbrev pub Index : Type 0 → Type 0
Index A = Text → Option A

-- The index, and the global `_dxcc_index` behind the call.
abbrev pub load_dxcc_index : {A : Type 0} → Option (Index A) → Option (Index A) → Index A
load_dxcc_index read (some index) = index
load_dxcc_index (some index) none = index
load_dxcc_index none none = λ _. none

abbrev pub portable_suffixes : List Text
portable_suffixes =
    codes "P" ∷ codes "M" ∷ codes "MM" ∷ codes "QRP" ∷ codes "QRPP" ∷ codes "A" ∷ codes "B" ∷ []

-- `re.sub(r"/(P|M|MM|QRP|QRPP|A|B)$", "", cs)`, for a text with no newline at its end.
unfoldable pub strip_suffix : Text → Text
strip_suffix [] = []
strip_suffix (c ∷ s) =
    let rest = strip_suffix s in
    if c == b'/' && any (same s) portable_suffixes then [] else c ∷ rest

abbrev pub or_else : {A : Type 0} → Option A → Option A → Option A
or_else (some a) next = some a
or_else none next = next

-- The loop, from `length` characters down to one.
abbrev pub longest_match : {A : Type 0} → Index A → Text → (length : ℕ) → Option A
longest_match index cs zero = none
longest_match index cs (suc n) =
    let shorter = longest_match index cs n in or_else (index (take (suc n) cs)) shorter

abbrev pub base_of : Text → Text
base_of callsign = strip_suffix (strip (upper callsign))

-- An empty callsign is answered before the index is loaded.
unfoldable pub callsign_to_dxcc :
    {A : Type 0} → Option (Index A) → Option (Index A) → Text → Option A × Option (Index A)
callsign_to_dxcc read cached [] = (none, cached)
callsign_to_dxcc read cached (c ∷ s) =
    let cs = base_of (c ∷ s) in
    let index = load_dxcc_index read cached in
    (longest_match index cs (min (length cs) 5), some index)
