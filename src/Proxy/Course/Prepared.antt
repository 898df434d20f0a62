-- ===== src/Proxy/Course/Prepared.antt =====
-- What the preparation of a body leaves of the request (src/proxy/handler/body.rs).
use reduction.Prelude.{
  ℕ, ◌≡◌, refl, sym, ap, ap₂, ◌∙◌, subst, Bool, true, false, not, ◌&&◌, ◌||◌, Option, none, some,
  List, ltb, if◌then◌else◌, length, Text, codes,
}
use reduction.Prelude.Results.{Result, ok, err}
use reduction.Http.{first}
use reduction.Prelude.Words.{wrap_inc}
use reduction.Proxy.{Env, Parts, Request, Headers, Server, Settings, ReplayBody}
use reduction.Proxy.Replay.{
  declared_length_exceeds, PreparedBody, ready, respond_with, buffer_request_body,
  decompressed_request, decompress_read, decompress_request, attempts_of, buffered_or_rejected,
  buffered, buffered_after, prepare_replay_body, decompress_bounded,
}
use reduction.Proxy.Store.{Answer}
use reduction.Handler.Headers.Stripped.{get_all-remove_test, get_all-insert_test}
use reduction.Prelude.Decimal.{decimal}
use reduction.Handler.{retries_permitted, is_idempotent_method, not_empty}

module _ (e : Env) where
  -- The same method and path, and the same idempotency key.
  pub record SameLine (p q : Parts (Headers e)) : Type 0 where
    pub method : p.method ≡ q.method
    pub path : p.path ≡ q.path
    pub path_and_query : p.path_and_query ≡ q.path_and_query
    pub key :
        e.http.get_all (codes "idempotency-key") p.headers
        ≡ e.http.get_all (codes "idempotency-key") q.headers

  same_line : (p : Parts (Headers e)) → SameLine p p
  same_line p = record { method = refl; path = refl; path_and_query = refl; key = refl }

  attempts_of-SameLine :
      (settings : Settings e) (p q : Parts (Headers e))
      → SameLine p q
      → attempts_of e settings p ≡ attempts_of e settings q
  unfolding attempts_of retries_permitted
  attempts_of-SameLine settings p q l =
      ap₂
        (λ (m : Text) (vs : List Text).
          if is_idempotent_method m
            || elim (first vs) [ none ↦ false | some value ↦ not_empty value ]
          then wrap_inc settings.retry_config.max_retries
          else 1)
        l.method l.key

  -- What is made ready is the request with the attempts that it may have.
  abbrev pub IsReady :
      Settings e → Parts (Headers e) → Server e → Server e × PreparedBody e → Type 0
  IsReady settings parts s r =
      (r.0.sent ≡ s.sent)
      × ((replay : ReplayBody e) (n : ℕ)
          → r.1 ≡ ready replay n
          → SameLine replay.req_parts parts × (n ≡ attempts_of e settings parts))

  abbrev ready_or : ReplayBody e → PreparedBody e → ReplayBody e
  ready_or d (ready replay n) = replay
  ready_or d (respond_with r) = d

  abbrev count_or : PreparedBody e → ℕ
  count_or (ready replay n) = n
  count_or (respond_with r) = 0

  made_ready :
      (settings : Settings e) (parts : Parts (Headers e)) (s t : Server e) (replay : ReplayBody e)
      → t.sent ≡ s.sent
      → replay.req_parts ≡ parts
      → IsReady settings parts s (t, ready replay (attempts_of e settings parts))
  made_ready settings parts s t replay h k = (
    h,
    λ replay' n q. (
      subst (λ r. SameLine r.req_parts parts) (ap (ready_or replay) q)
          (subst (λ p. SameLine p parts) (sym k) (same_line parts)),
      sym (ap count_or q),
    ),
  )

  buffered_or_rejected-IsReady :
      (settings : Settings e) (parts : Parts (Headers e)) (s t : Server e) (r : Result ℕ Text)
      → t.sent ≡ s.sent
      → IsReady settings parts s (t, buffered_or_rejected e parts (attempts_of e settings parts) r)
  unfolding buffered_or_rejected
  buffered_or_rejected-IsReady settings parts s t (err x) h = (h, λ replay n q. cc q)
  buffered_or_rejected-IsReady settings parts s t (ok bytes) h =
      made_ready settings parts s t
        (record { body_bytes = some bytes; streaming_body = none; req_parts = parts }) h refl

  if-IsReady :
      (settings : Settings e) (parts : Parts (Headers e)) (s : Server e) (b : Bool)
      (x y : Server e × PreparedBody e)
      → IsReady settings parts s x
      → IsReady settings parts s y
      → IsReady settings parts s (if b then x else y)
  if-IsReady settings parts s true x y h k = h
  if-IsReady settings parts s false x y h k = k

  buffered-IsReady :
      (settings : Settings e) (req : Request (Headers e) e.Body) (s : Server e)
      → IsReady settings req.parts s (buffered e settings req s)
  unfolding buffered buffer_request_body
  buffered-IsReady settings req s =
      let cap = settings.proxy_config.max_request_body_bytes in
      let n = attempts_of e settings req.parts in
      let r = buffer_request_body e req.body cap s in
      let whole : ReplayBody e = record {
        body_bytes = none;
        streaming_body = some req.body;
        req_parts = req.parts;
      } in
      if-IsReady settings req.parts s
        (ltb 1 n && not (declared_length_exceeds e req.parts.headers cap))
        (r.0, buffered_or_rejected e req.parts n r.1) (s, ready whole n)
        (buffered_or_rejected-IsReady settings req.parts s r.0 r.1 refl)
        (made_ready settings req.parts s s whole refl refl)

  -- A request of the same line is made ready alike.
  line-IsReady :
      (settings : Settings e) (p q : Parts (Headers e)) (s t : Server e)
      (r : Server e × PreparedBody e)
      → SameLine p q
      → t.sent ≡ s.sent
      → IsReady settings p t r
      → IsReady settings q s r
  line-IsReady settings p q s t r l h (k, made) = (
    k ∙ h,
    λ replay n m. (
      record {
        method = (made replay n m).0.method ∙ l.method;
        path = (made replay n m).0.path ∙ l.path;
        path_and_query = (made replay n m).0.path_and_query ∙ l.path_and_query;
        key = (made replay n m).0.key ∙ l.key;
      },
      (made replay n m).1 ∙ attempts_of-SameLine settings p q l,
    ),
  )

  buffered_after-IsReady :
      (settings : Settings e) (parts : Parts (Headers e)) (s t : Server e)
      (r : Result (Answer e) (Request (Headers e) e.Body))
      → t.sent ≡ s.sent
      → ((req : Request (Headers e) e.Body) → r ≡ ok req → SameLine req.parts parts)
      → IsReady settings parts s (buffered_after e settings (t, r))
  unfolding buffered_after
  buffered_after-IsReady settings parts s t (err x) h l = (h, λ replay n q. cc q)
  buffered_after-IsReady settings parts s t (ok req) h l =
      line-IsReady settings req.parts parts s t (buffered e settings req t) (l req refl) h
        (buffered-IsReady settings req t)

  -- The body's headers are no part of the line.
  decompressed_line :
      (parts : Parts (Headers e)) (len : Text) (m : Headers e)
      → m
        ≡ e.http.insert
            (codes "content-length")
            len
            (e.http.remove (codes "content-encoding") parts.headers)
      → SameLine (record parts { headers = m }) parts
  decompressed_line parts len m h = record {
    method = refl;
    path = refl;
    path_and_query = refl;
    key =
        ap (e.http.get_all (codes "idempotency-key")) h
        ∙ get_all-insert_test e.http (codes "idempotency-key") (codes "content-length") len
            (e.http.remove (codes "content-encoding") parts.headers)
        ∙ get_all-remove_test e.http (codes "idempotency-key") (codes "content-encoding")
            parts.headers;
  }

  abbrev req_or :
      Request (Headers e) e.Body
      → Result (Answer e) (Request (Headers e) e.Body)
      → Parts (Headers e)
  req_or d (ok req) = req.parts
  req_or d (err x) = d.parts

  decompressed_request-SameLine :
      (parts : Parts (Headers e)) (bytes : Option Text) (req : Request (Headers e) e.Body)
      → decompressed_request e parts bytes ≡ ok req
      → SameLine req.parts parts
  unfolding decompressed_request
  decompressed_request-SameLine parts none req h = cc h
  decompressed_request-SameLine parts (some bytes) req h =
      subst (λ p. SameLine p parts) (ap (req_or req) h)
        (decompressed_line parts (decimal (length bytes))
          (e.http.insert (codes "content-length") (decimal (length bytes))
            (e.http.remove (codes "content-encoding") parts.headers))
          refl)

  decompress_read-SameLine :
      (parts : Parts (Headers e)) (cap : ℕ) (r : Result ℕ Text) (req : Request (Headers e) e.Body)
      → decompress_read e parts cap r ≡ ok req
      → SameLine req.parts parts
  unfolding decompress_read
  decompress_read-SameLine parts cap (err x) req h = cc h
  decompress_read-SameLine parts cap (ok bytes) req h =
      decompressed_request-SameLine parts (decompress_bounded e bytes cap) req h

  pub prepare_replay_body-IsReady :
      (req : Request (Headers e) e.Body) (settings : Settings e) (zstd : Bool) (s : Server e)
      → IsReady settings req.parts s (prepare_replay_body e req settings zstd s)
  unfolding prepare_replay_body decompress_request buffer_request_body
  prepare_replay_body-IsReady req settings zstd s =
      let cap = settings.proxy_config.max_request_body_bytes in
      let r = buffer_request_body e req.body cap s in
      let read = decompress_read e req.parts cap r.1 in
      if-IsReady settings req.parts s zstd (buffered_after e settings (r.0, read))
        (buffered e settings req s)
        (buffered_after-IsReady settings req.parts s r.0 read refl
          (decompress_read-SameLine req.parts cap r.1))
        (buffered-IsReady settings req s)
