-- ===== src/Geocoding/Static/Cities.antt =====
-- src/infrastructure/geocoding/us-cities.ts, in micro-degrees.
use Prim.Native.String.{String}
use canals.Prelude.{Text, codes, List, [], ◌∷◌}
use canals.Prelude.Int.{ℤ, pos, negsuc}

pub record CityCentre : Type 0 where
  pub key : Text
  pub latitude : ℤ
  pub longitude : ℤ

abbrev city_centre : String → ℤ → ℤ → CityCentre
city_centre key latitude longitude = record {
  key = codes key;
  latitude = latitude;
  longitude = longitude;
}

unfoldable pub us_cities : List CityCentre
us_cities =
    city_centre "newark|NJ" (pos 40735657) (negsuc 74172362)
    ∷ city_centre "los angeles|CA" (pos 34052235) (negsuc 118243682)
    ∷ city_centre "dallas|TX" (pos 32776664) (negsuc 96796987)
    ∷ city_centre "chicago|IL" (pos 41878113) (negsuc 87629798)
    ∷ city_centre "miami|FL" (pos 25761681) (negsuc 80191787)
    ∷ city_centre "new york|NY" (pos 40712800) (negsuc 74005999)
    ∷ city_centre "philadelphia|PA" (pos 39952600) (negsuc 75165199)
    ∷ city_centre "san diego|CA" (pos 32715700) (negsuc 117161099)
    ∷ city_centre "houston|TX" (pos 29760400) (negsuc 95369799)
    ∷ city_centre "milwaukee|WI" (pos 43038900) (negsuc 87906499)
    ∷ city_centre "orlando|FL" (pos 28538300) (negsuc 81379199)
    ∷ city_centre "seattle|WA" (pos 47606200) (negsuc 122332099)
    ∷ city_centre "denver|CO" (pos 39739200) (negsuc 104990299)
    ∷ city_centre "portland|OR" (pos 45515200) (negsuc 122678399)
    ∷ city_centre "portland|ME" (pos 43659100) (negsuc 70256799)
    ∷ city_centre "boston|MA" (pos 42360100) (negsuc 71058899)
    ∷ city_centre "atlanta|GA" (pos 33749000) (negsuc 84387999)
    ∷ city_centre "phoenix|AZ" (pos 33448400) (negsuc 112073999)
    ∷ city_centre "san francisco|CA" (pos 37774900) (negsuc 122419399)
    ∷ city_centre "austin|TX" (pos 30267200) (negsuc 97743099)
    ∷ city_centre "san antonio|TX" (pos 29424100) (negsuc 98493599)
    ∷ city_centre "charlotte|NC" (pos 35227100) (negsuc 80843099)
    ∷ city_centre "columbus|OH" (pos 39961200) (negsuc 82998799)
    ∷ city_centre "indianapolis|IN" (pos 39768400) (negsuc 86158099)
    ∷ city_centre "san jose|CA" (pos 37338200) (negsuc 121886299)
    ∷ city_centre "detroit|MI" (pos 42331400) (negsuc 83045799)
    ∷ city_centre "nashville|TN" (pos 36162700) (negsuc 86781599)
    ∷ city_centre "memphis|TN" (pos 35149500) (negsuc 90048999)
    ∷ city_centre "baltimore|MD" (pos 39290400) (negsuc 76612199)
    ∷ city_centre "las vegas|NV" (pos 36169900) (negsuc 115139799)
    ∷ city_centre "minneapolis|MN" (pos 44977800) (negsuc 93264999)
    ∷ city_centre "new orleans|LA" (pos 29951100) (negsuc 90071499)
    ∷ []
