-- ===== src/Redirect.antt =====
-- The redirect of plain HTTP to HTTPS (src/redirect.rs). `from_str` is `HeaderValue::from_str`; a
-- response has an empty body.
use reduction.Prelude.{ℕ, Option, none, some, unwrap_or, ◌++◌, Text, codes}
use reduction.Http.{HeaderOps}

abbrev redirect_status : ℕ
redirect_status = 308

abbrev default_path : Text
default_path = codes "/"

pub record RedirectTarget : Type 0 where
  pub host : Text

unfoldable pub redirect_location : Text → Text → Text
redirect_location host path_and_query = codes "https://" ++ host ++ path_and_query

module _ (h : HeaderOps) (from_str : Text → Option Text) where
  pub record Response : Type 0 where
    pub status : ℕ
    pub headers : h.HeaderMap

  unfoldable pub build_redirect : Text → Text → Response
  build_redirect host path_and_query = elim (from_str (redirect_location host path_and_query)) [
    | none ↦ record { status = 400; headers = h.empty }
    | some value ↦ record {
      status = redirect_status;
      headers = h.insert (codes "location") value h.empty;
    }
  ]

  -- A request is the path and query of its URI, where it has them.
  unfoldable pub redirect_handler : RedirectTarget → Option Text → Response
  redirect_handler target path_and_query =
      build_redirect target.host (unwrap_or path_and_query default_path)
