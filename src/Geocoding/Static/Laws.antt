-- ===== src/Geocoding/Static/Laws.antt =====
-- static-geocoding.provider.ts: what it answers with.
use canals.Prelude.{◌+◌, ◌≤◌, ◌≡◌, ◌⊎◌, Text, List, [], ◌∷◌, All, arith}
use canals.Prelude.Int.{ℤ, pos_part, neg_part}
use canals.Errors.{Result, ok, err, geocoding_failed, unknown_address}
use canals.Geocoding.Static.{find_city, only_match}
use canals.Geocoding.Static.Cities.{CityCentre}

-- Within the jitter of zero, and of each other.
abbrev pub IsSmall : ℤ → Type 0
IsSmall z = (pos_part z ≤ 50000) × (neg_part z ≤ 50000)

abbrev pub IsNear : ℤ → ℤ → Type 0
IsNear a b =
    (pos_part a + neg_part b ≤ pos_part b + neg_part a + 50000)
    × (pos_part b + neg_part a ≤ pos_part a + neg_part b + 50000)

abbrev IsInside : CityCentre → Type 0
IsInside c =
    ((pos_part c.latitude + 50000 ≤ 90000000) × (neg_part c.latitude + 50000 ≤ 90000000))
    × (pos_part c.longitude + 50000 ≤ 180000000)
    × (neg_part c.longitude + 50000 ≤ 180000000)

find_city-IsInside :
    (key : Text) (cs : List CityCentre) (c : CityCentre)
    → All IsInside cs
    → find_city key cs ≡ ok c
    → IsInside c
find_city-IsInside key [] c h found = ground arith
find_city-IsInside key (d ∷ cs) c h found = ground (arith, find_city-IsInside key cs c)

only_match-IsInside :
    (cs : List CityCentre) (c : CityCentre) → All IsInside cs → only_match cs ≡ ok c → IsInside c
only_match-IsInside [] c h found = ground arith
only_match-IsInside (d ∷ []) c h found = ground arith
only_match-IsInside (d ∷ e ∷ cs) c h found = ground arith

-- A centre of the table, or the error of an unknown address.
abbrev IsResolved : Result CityCentre → Type 0
IsResolved result =
    ((c : CityCentre) × (result ≡ ok c) × IsInside c)
    ⊎ (result ≡ err (geocoding_failed unknown_address))

abbrev IsOk : Result Text → Type 0
IsOk result = (t : Text) × (result ≡ ok t)
