-- ===== src/CacheControl/Tests.antt =====
-- Runs of the `Cache-Control` parser (src/cache_control.rs).
use reduction.Prelude.{◌≡◌, true, false, some, Text, codes}
use reduction.CacheControl.{parse}
use reduction.CacheControl.Parse.{parse_lem}

abbrev header : Text
header = codes "Public, NO-store ,max-age=5,x"

parse_lem_example :
    ((parse header).no_store ≡ true)
    × ((parse header).no_transform ≡ false)
    × ((parse header).is_private ≡ false)
    × ((parse header).is_public ≡ true)
    × ((parse header).max_age ≡ some 5)
parse_lem_example = parse_lem header
