-- ===== src/Handler/Vary.antt =====
-- The `Vary` headers that the handler looks at (`vary_permits_caching` of src/proxy/handler/policy.rs).
use reduction.Prelude.{◌≡◌, refl, ◌∙◌, if_pos, Option, List, ◌∷◌, Text, codes, text_dec}
use reduction.Http.{HeaderOps}
use reduction.Handler.{vary_permits_caching}

-- Only the first `Vary` header counts: a response that has more of them is judged as if the others
-- were not there.
later_vary_ignored :
    (h : HeaderOps) (to_str : Text → Option Text) (m : h.HeaderMap) (v : Text) (vs : List Text)
    → h.get_all (codes "vary") m ≡ v ∷ vs
    → vary_permits_caching h to_str m ≡ vary_permits_caching h to_str (h.insert (codes "vary") v m)
unfolding vary_permits_caching
later_vary_ignored h to_str m v vs e =
    let one =
      h.get_all-insert (codes "vary") (codes "vary") v m
      ∙ if_pos (text_dec (codes "vary") (codes "vary")) refl _ _ in
    rw (one, vary_permits_caching, e, vary_permits_caching) refl
