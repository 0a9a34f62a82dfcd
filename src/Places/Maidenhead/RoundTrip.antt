-- ===== src/Places/Maidenhead/RoundTrip.antt =====
-- A locator and the centre of its cell.
use ham_spectrum_analysis.Prelude.{
  ℕ, ◌+◌, ◌-◌, ◌*◌, ◌/◌, ◌%◌, ◌≡◌, ◌∙◌, ◌≤◌, ◌<◌, sym, ap, subst, refl, Bool, true, false, ◌&&◌,
  none, some, [], ◌∷◌, length, ◌==◌, arith, if◌then◌else◌,
}
use ham_spectrum_analysis.Text.{Text, strip, upper, IsPlain, upper-strip_plain}
use ham_spectrum_analysis.Places.Maidenhead.{
  is_field, is_square, is_subsquare, corner, centre_of, maidenhead_to_latlon,
}

-- The locator of a point, of four or six characters: fields of 480 units, squares of 48 and subsquares
-- of 2.
abbrev pub square_of : (lat lon : ℕ) → Text → Text
square_of lat lon rest =
    (b'A' + lon / 480)
    ∷ (b'A' + lat / 480)
    ∷ (b'0' + lon % 480 / 48)
    ∷ (b'0' + lat % 480 / 48)
    ∷ rest

abbrev pub locator : (long : Bool) → (lat lon : ℕ) → Text
locator false lat lon = square_of lat lon []
locator true lat lon = square_of lat lon ((b'A' + lon % 48 / 2) ∷ (b'A' + lat % 48 / 2) ∷ [])

-- The parts of a coordinate.
corner-parts :
    (field square rest : ℕ)
    → b'A' ≤ field
    → b'0' ≤ square
    → square ≤ b'9'
    → rest < 48
    → (b'A' + (corner field square + rest) / 480 ≡ field)
      × (b'0' + (corner field square + rest) % 480 / 48 ≡ square)
      × ((corner field square + rest) % 48 ≡ rest)
corner-parts field square rest h k l r =
    (omega (arith, h, k, l, r), omega (arith, h, k, l, r), omega (arith, h, k, l, r))

corner_back : (x : ℕ) → corner (b'A' + x / 480) (b'0' + x % 480 / 48) + x % 48 ≡ x
corner_back x = omega arith

if_some :
    {A : Type 0} (b : Bool) (x y : A) → (if b then some x else none) ≡ some y → (b ≡ true) × (x ≡ y)
if_some true x y e = ground (arith, e)
if_some false x y e = absurd (ground (arith, e))

abbrev IsCentre : (g : Text) (p : ℕ × ℕ) → Type 0
IsCentre g (lat, lon) = (lat < 8640) × (lon < 8640) × (g ≡ locator (length g == 6) lat lon)

abbrev IsCorner : ℕ → ℕ → Type 0
IsCorner field square = (is_field field ≡ true) × (is_square square ≡ true)

coordinate_parts :
    (field square rest : ℕ)
    → IsCorner field square
    → rest < 48
    → (corner field square + rest < 8640)
      × (b'A' + (corner field square + rest) / 480 ≡ field)
      × (b'0' + (corner field square + rest) % 480 / 48 ≡ square)
      × ((corner field square + rest) % 48 ≡ rest)
coordinate_parts field square rest (h, k) r =
    let (a, b, c) =
      corner-parts field square rest (ground (arith, h)) (ground (arith, k)) (ground (arith, k))
        r in
    (ground (arith, h, k, r), a, b, c)

square-IsCentre :
    (a b c d : ℕ)
    → IsCorner a c
    → IsCorner b d
    → IsCentre (a ∷ b ∷ c ∷ d ∷ []) (corner b d + 24, corner a c + 24)
square-IsCentre a b c d east north =
    let (u, field, square, _) = coordinate_parts a c 24 east (omega arith) in
    let (v, field_n, square_n, _) = coordinate_parts b d 24 north (omega arith) in
    (v, u, grind (arith, field, square, field_n, square_n))

-- What a subsquare adds to the corner.
subsquare_part :
    (c x y : ℕ)
    → is_subsquare c ≡ true
    → (x + (c - b'A') * 2 + 1 ≡ x + ((c - b'A') * 2 + 1))
      × ((c - b'A') * 2 + 1 < 48)
      × (y % 48 ≡ (c - b'A') * 2 + 1 → b'A' + y % 48 / 2 ≡ c)
subsquare_part c x y h = (omega arith, ground (arith, h), λ e. ground (arith, h, e))

subsquare-IsCentre :
    (a b c d e f : ℕ)
    → IsCorner a c
    → IsCorner b d
    → is_subsquare e ≡ true
    → is_subsquare f ≡ true
    → IsCentre
        (a ∷ b ∷ c ∷ d ∷ e ∷ f ∷ [])
        (corner b d + (f - b'A') * 2 + 1, corner a c + (e - b'A') * 2 + 1)
subsquare-IsCentre a b c d e f east north east_sub north_sub =
    let lon = corner a c + ((e - b'A') * 2 + 1) in
    let lat = corner b d + ((f - b'A') * 2 + 1) in
    let (same_e, small_e, back_e) = subsquare_part e (corner a c) lon east_sub in
    let (same_f, small_f, back_f) = subsquare_part f (corner b d) lat north_sub in
    let (u, field, square, rest) = coordinate_parts a c ((e - b'A') * 2 + 1) east small_e in
    let (v, field_n, square_n, rest_n) = coordinate_parts b d ((f - b'A') * 2 + 1) north small_f in
    let sub_e : b'A' + lon % 48 / 2 ≡ e = back_e rest in
    let sub_f : b'A' + lat % 48 / 2 ≡ f = back_f rest_n in
    let exact : IsCentre (a ∷ b ∷ c ∷ d ∷ e ∷ f ∷ []) (lat, lon) =
      (v, u, grind (arith, field, square, field_n, square_n, sub_e, sub_f)) in
    subst (IsCentre (a ∷ b ∷ c ∷ d ∷ e ∷ f ∷ []))
      (ap (λ x. (x, lon)) (sym same_f)
        ∙ ap (λ x. (corner b d + (f - b'A') * 2 + 1, x)) (sym same_e))
      exact

centre_of-IsCentre : (g : Text) (p : ℕ × ℕ) → centre_of g ≡ some p → IsCentre g p
centre_of-IsCentre [] p h = absurd (ground (arith, h))
centre_of-IsCentre (a ∷ []) p h = absurd (ground (arith, h))
centre_of-IsCentre (a ∷ b ∷ []) p h = absurd (ground (arith, h))
centre_of-IsCentre (a ∷ b ∷ c ∷ []) p h = absurd (ground (arith, h))
centre_of-IsCentre (a ∷ b ∷ c ∷ d ∷ []) p h =
    let (q, same) =
      if_some (is_field a && is_field b && is_square c && is_square d)
        (corner b d + 24, corner a c + 24) p h in
    subst (IsCentre (a ∷ b ∷ c ∷ d ∷ [])) same (
      square-IsCentre a b c d (ground (arith, q), ground (arith, q))
        (ground (arith, q), ground (arith, q)))
centre_of-IsCentre (a ∷ b ∷ c ∷ d ∷ e ∷ []) p h = absurd (ground (arith, h))
centre_of-IsCentre (a ∷ b ∷ c ∷ d ∷ e ∷ f ∷ []) p h =
    let (q, same) =
      if_some
        (is_field a && is_field b && is_square c && is_square d && is_subsquare e && is_subsquare f)
        (corner b d + (f - b'A') * 2 + 1, corner a c + (e - b'A') * 2 + 1) p h in
    subst (IsCentre (a ∷ b ∷ c ∷ d ∷ e ∷ f ∷ [])) same (
      subsquare-IsCentre a b c d e f (ground (arith, q), ground (arith, q))
        (ground (arith, q), ground (arith, q)) (ground (arith, q)) (ground (arith, q)))
centre_of-IsCentre (a ∷ b ∷ c ∷ d ∷ e ∷ f ∷ g ∷ r) p h = absurd (ground (arith, h))

-- The centre that a locator gives lies on the globe, and the locator of that centre, of as many
-- characters, is the locator, stripped and in upper case: two locators of one cell are one text.
pub maidenhead_to_latlon-IsCentre :
    (grid : Text) (p : ℕ × ℕ)
    → maidenhead_to_latlon grid ≡ some p
    → (p.0 < 180 * 48)
      × (p.1 < 360 * 24)
      × (upper (strip grid) ≡ locator (length (upper (strip grid)) == 6) p.0 p.1)
unfolding maidenhead_to_latlon
maidenhead_to_latlon-IsCentre grid p h =
    centre_of-IsCentre (upper (strip grid)) p (grind (arith, h))

point-IsCorner : (x : ℕ) → x < 8640 → IsCorner (b'A' + x / 480) (b'0' + x % 480 / 48)
point-IsCorner x h = (ground (arith, h), ground (arith, h))

point_subsquare : (x : ℕ) → is_subsquare (b'A' + x % 48 / 2) ≡ true
point_subsquare x = ground arith

point-IsPlain :
    (long : Bool) (lat lon : ℕ) → lat < 8640 → lon < 8640 → IsPlain (locator long lat lon)
point-IsPlain false lat lon h k = ground (arith, h, k)
point-IsPlain true lat lon h k = ground (arith, h, k)

-- Half of the cell's side.
abbrev pub IsWithin : (half x centre : ℕ) → Type 0
IsWithin half x centre = (x ≤ centre + half) × (centre ≤ x + half)

centre_of-locator :
    (long : Bool) (lat lon : ℕ)
    → lat < 8640
    → lon < 8640
    → (p : ℕ × ℕ) × (centre_of (locator long lat lon) ≡ some p)
      × IsWithin (if long then 1 else 24) lat p.0
      × IsWithin (if long then 1 else 24) lon p.1
centre_of-locator false lat lon h k =
    let (a, c) = point-IsCorner lon k in
    let (b, d) = point-IsCorner lat h in
    (
      (
        corner (b'A' + lat / 480) (b'0' + lat % 480 / 48) + 24,
        corner (b'A' + lon / 480) (b'0' + lon % 480 / 48) + 24,
      ),
      rw (a, b, c, d) refl,
      omega (arith, corner_back lat),
      omega (arith, corner_back lon),
    )
centre_of-locator true lat lon h k =
    let (a, c) = point-IsCorner lon k in
    let (b, d) = point-IsCorner lat h in
    (
      (
        corner (b'A' + lat / 480) (b'0' + lat % 480 / 48) + (b'A' + lat % 48 / 2 - b'A') * 2 + 1,
        corner (b'A' + lon / 480) (b'0' + lon % 480 / 48) + (b'A' + lon % 48 / 2 - b'A') * 2 + 1,
      ),
      rw (a, b, c, d, point_subsquare lon, point_subsquare lat) refl,
      omega (arith, corner_back lat),
      omega (arith, corner_back lon),
    )

maidenhead_to_latlon-plain :
    (c : ℕ) (s : Text)
    → IsPlain (c ∷ s)
    → 4 ≤ length (c ∷ s)
    → maidenhead_to_latlon (c ∷ s) ≡ centre_of (c ∷ s)
unfolding maidenhead_to_latlon
maidenhead_to_latlon-plain c s plain h =
    ground (arith, h, ap centre_of (upper-strip_plain c s plain))

locator-plain :
    (long : Bool) (lat lon : ℕ)
    → lat < 8640
    → lon < 8640
    → maidenhead_to_latlon (locator long lat lon) ≡ centre_of (locator long lat lon)
locator-plain false lat lon h k =
    maidenhead_to_latlon-plain _ _ (point-IsPlain false lat lon h k) (omega arith)
locator-plain true lat lon h k =
    maidenhead_to_latlon-plain _ _ (point-IsPlain true lat lon h k) (omega arith)

-- The locator of every point, of four or of six characters, is accepted, and its centre is at most half
-- a cell away from the point in each direction: 24 units for a square, one for a subsquare.
pub maidenhead_to_latlon-locator :
    (long : Bool) (lat lon : ℕ)
    → lat < 180 * 48
    → lon < 360 * 24
    → (p : ℕ × ℕ) × (maidenhead_to_latlon (locator long lat lon) ≡ some p)
      × IsWithin (if long then 1 else 24) lat p.0
      × IsWithin (if long then 1 else 24) lon p.1
maidenhead_to_latlon-locator long lat lon h k =
    let (p, found, north, east) = centre_of-locator long lat lon h k in
    (p, locator-plain long lat lon h k ∙ found, north, east)
