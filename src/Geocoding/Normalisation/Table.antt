-- ===== src/Geocoding/Normalisation/Table.antt =====
-- src/infrastructure/geocoding/normalisation.ts: the names of the states and their codes.
use canals.Prelude.{Text, codes, List, [], ◌∷◌}

unfoldable pub state_name_to_code : List (Text × Text)
state_name_to_code =
    (codes "alabama", codes "AL")
    ∷ (codes "alaska", codes "AK")
    ∷ (codes "arizona", codes "AZ")
    ∷ (codes "arkansas", codes "AR")
    ∷ (codes "california", codes "CA")
    ∷ (codes "colorado", codes "CO")
    ∷ (codes "connecticut", codes "CT")
    ∷ (codes "delaware", codes "DE")
    ∷ (codes "florida", codes "FL")
    ∷ (codes "georgia", codes "GA")
    ∷ (codes "hawaii", codes "HI")
    ∷ (codes "idaho", codes "ID")
    ∷ (codes "illinois", codes "IL")
    ∷ (codes "indiana", codes "IN")
    ∷ (codes "iowa", codes "IA")
    ∷ (codes "kansas", codes "KS")
    ∷ (codes "kentucky", codes "KY")
    ∷ (codes "louisiana", codes "LA")
    ∷ (codes "maine", codes "ME")
    ∷ (codes "maryland", codes "MD")
    ∷ (codes "massachusetts", codes "MA")
    ∷ (codes "michigan", codes "MI")
    ∷ (codes "minnesota", codes "MN")
    ∷ (codes "mississippi", codes "MS")
    ∷ (codes "missouri", codes "MO")
    ∷ (codes "montana", codes "MT")
    ∷ (codes "nebraska", codes "NE")
    ∷ (codes "nevada", codes "NV")
    ∷ (codes "new hampshire", codes "NH")
    ∷ (codes "new jersey", codes "NJ")
    ∷ (codes "new mexico", codes "NM")
    ∷ (codes "new york", codes "NY")
    ∷ (codes "north carolina", codes "NC")
    ∷ (codes "north dakota", codes "ND")
    ∷ (codes "ohio", codes "OH")
    ∷ (codes "oklahoma", codes "OK")
    ∷ (codes "oregon", codes "OR")
    ∷ (codes "pennsylvania", codes "PA")
    ∷ (codes "rhode island", codes "RI")
    ∷ (codes "south carolina", codes "SC")
    ∷ (codes "south dakota", codes "SD")
    ∷ (codes "tennessee", codes "TN")
    ∷ (codes "texas", codes "TX")
    ∷ (codes "utah", codes "UT")
    ∷ (codes "vermont", codes "VT")
    ∷ (codes "virginia", codes "VA")
    ∷ (codes "washington", codes "WA")
    ∷ (codes "west virginia", codes "WV")
    ∷ (codes "wisconsin", codes "WI")
    ∷ (codes "wyoming", codes "WY")
    ∷ (codes "district of columbia", codes "DC")
    ∷ []
