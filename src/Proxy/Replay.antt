-- ===== src/Proxy/Replay.antt =====
-- The body of a request, made ready for its attempts (src/proxy/handler/body.rs, with
-- `decompress_bounded` of src/compression.rs). Whether a body is decompressed on another thread makes
-- no difference but for a panic there.
use reduction.Prelude.{
  ℕ, ◌+◌, Bool, false, not, ◌&&◌, Option, none, some, ltb, ◌==◌, if◌then◌else◌, length, Text, codes,
}
use reduction.Prelude.Decimal.{decimal}
use reduction.Prelude.Parsing.{parse_u64}
use reduction.Prelude.Results.{Result, ok, err}
use reduction.Prelude.Words.{wrap_inc}
use reduction.Handler.{retries_permitted}
use reduction.Proxy.{Env, Parts, Request, Headers, Server, Settings, ReplayBody, error_body}
use reduction.Proxy.Store.{Answer, header_value}

module _ (e : Env) where
  pub data PreparedBody : Type 0 where
    ready : ReplayBody e → ℕ → PreparedBody
    respond_with : Answer e → PreparedBody

  unfoldable pub declared_length_exceeds : Headers e → ℕ → Bool
  declared_length_exceeds headers cap =
      elim (header_value e (codes "content-length") parse_u64 headers) [
        | none ↦ false
        | some len ↦ ltb cap len
      ]

  unfoldable pub decompress_bounded : Text → ℕ → Option Text
  decompress_bounded bytes max_bytes = elim (e.zstd_take bytes (max_bytes + 1)) [
    | none ↦ none
    | some output ↦ if ltb max_bytes (length output) then none else some output
  ]

  -- The status of a body that could not be read: `true` for its cap.
  abbrev pub read_status : Bool → ℕ
  read_status over_limit = if over_limit then 413 else 400

  abbrev pub read_or_status : Result Bool Text → Result ℕ Text
  read_or_status (ok bytes) = ok bytes
  read_or_status (err over_limit) = err (read_status over_limit)

  unfoldable pub buffer_request_body : e.Body → ℕ → Server e → Server e × Result ℕ Text
  buffer_request_body body cap s =
      let (world, collected) = e.collect (e.limited cap body) s.world in
      (record s { world = world }, read_or_status collected)

  abbrev pub rejected_body : Text → ℕ → Answer e
  rejected_body other status =
      error_body e status (if status == 413 then codes "request body too large" else other)

  -- The request with its body decompressed.
  unfoldable pub decompressed_request :
      Parts (Headers e) → Option Text → Result (Answer e) (Request (Headers e) e.Body)
  decompressed_request parts none = err (error_body e 400 (codes "invalid zstd body"))
  decompressed_request parts (some decompressed) = ok (record {
    parts = record parts {
      headers =
          e.http.insert (codes "content-length") (decimal (length decompressed))
            (e.http.remove (codes "content-encoding") parts.headers);
    };
    body = e.body_of decompressed;
  })

  unfoldable pub decompress_read :
      Parts (Headers e) → ℕ → Result ℕ Text → Result (Answer e) (Request (Headers e) e.Body)
  decompress_read parts max_body (err status) =
      err (rejected_body (codes "failed to read request body") status)
  decompress_read parts max_body (ok bytes) =
      decompressed_request parts (decompress_bounded bytes max_body)

  unfoldable pub decompress_request :
      Request (Headers e) e.Body
      → ℕ
      → Server e
      → Server e × Result (Answer e) (Request (Headers e) e.Body)
  decompress_request req max_body s =
      let (s', read) = buffer_request_body req.body max_body s in
      (s', decompress_read req.parts max_body read)

  -- The attempts that a request may have; the sum of u32 wraps around in a release build.
  unfoldable pub attempts_of : Settings e → Parts (Headers e) → ℕ
  attempts_of settings parts =
      if retries_permitted e.http e.to_str parts.method parts.headers
      then wrap_inc settings.retry_config.max_retries
      else 1

  unfoldable pub buffered_or_rejected : Parts (Headers e) → ℕ → Result ℕ Text → PreparedBody
  buffered_or_rejected parts max_attempts (err status) =
      respond_with (rejected_body (codes "failed to read request body") status)
  buffered_or_rejected parts max_attempts (ok bytes) =
      ready (record { body_bytes = some bytes; streaming_body = none; req_parts = parts })
        max_attempts

  -- The body buffered, where it may be sent again and is not known to be too long.
  unfoldable pub buffered :
      Settings e → Request (Headers e) e.Body → Server e → Server e × PreparedBody
  buffered settings req s =
      let max_attempts = attempts_of settings req.parts in
      let cap = settings.proxy_config.max_request_body_bytes in
      if ltb 1 max_attempts && not (declared_length_exceeds req.parts.headers cap)
      then (let (s', read) = buffer_request_body req.body cap s in
          (s', buffered_or_rejected req.parts max_attempts read))
      else (
        s,
        ready (record { body_bytes = none; streaming_body = some req.body; req_parts = req.parts })
            max_attempts,
      )

  unfoldable pub buffered_after :
      Settings e
      → Server e × Result (Answer e) (Request (Headers e) e.Body)
      → Server e × PreparedBody
  buffered_after settings (s, err response) = (s, respond_with response)
  buffered_after settings (s, ok req) = buffered settings req s

  unfoldable pub prepare_replay_body :
      Request (Headers e) e.Body → Settings e → Bool → Server e → Server e × PreparedBody
  prepare_replay_body req settings request_is_zstd s =
      if request_is_zstd
      then buffered_after settings
          (decompress_request req settings.proxy_config.max_request_body_bytes s)
      else buffered settings req s
