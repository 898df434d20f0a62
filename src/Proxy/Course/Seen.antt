-- ===== src/Proxy/Course/Seen.antt =====
-- What the backends see of a request (`proxy_handler` and `forward_request` of src/proxy/handler.rs).
use reduction.Prelude.{
  ◌≡◌, refl, sym, ap, ◌∙◌, ◌≢◌, if_neg, Option, none, some, List, [], ◌∷◌, All, Text, text_dec,
}
use reduction.Prelude.Results.{ok, ok_inj}
use reduction.Acl.{IpAddr}
use reduction.Handler.Headers.{
  header_client_id, header_client_spki, ForwardError, apply_identity_headers,
}
use reduction.Handler.Headers.Stripped.{proven, get_all-apply_identity}
use reduction.Tunnel.Revocation.{PeerIdentity}
use reduction.Proxy.{Env, Headers, Backend}
use reduction.Proxy.Forward.{set_header, inject, traced, identified, addressed, outbound_headers}

module _ (e : Env) where
  -- The trace context does not carry a header under the name `j`.
  abbrev pub Unnamed : Text → List (Text × Text) → Type 0
  Unnamed j pairs = All (λ p. e.from_bytes p.0 ≢ some j) pairs

  get_all-set_header :
      (j : Text) (name val : Option Text) (m : Headers e)
      → name ≢ some j
      → e.http.get_all j (set_header e name val m) ≡ e.http.get_all j m
  unfolding set_header
  get_all-set_header j (some k) (some v) m ne =
      e.http.get_all-insert j k v m
      ∙ if_neg (text_dec k j) (λ p. ne (ap (λ (t : Text). some t) p)) (v ∷ []) (e.http.get_all j m)
  get_all-set_header j (some k) none m ne = refl
  get_all-set_header j none v m ne = refl

  get_all-inject :
      (j : Text) (pairs : List (Text × Text)) (m : Headers e)
      → Unnamed j pairs
      → e.http.get_all j (inject e pairs m) ≡ e.http.get_all j m
  unfolding inject
  get_all-inject j [] m q = refl
  get_all-inject j ((k, v) ∷ pairs) m q =
      get_all-inject j pairs (set_header e (e.from_bytes k) (e.from_str v) m) q.1
      ∙ get_all-set_header j (e.from_bytes k) (e.from_str v) m q.0

  -- The identity headers that a backend finds: what the handshake proved.
  abbrev pub Identified : Option PeerIdentity → Headers e → Type 0
  Identified identity headers =
      (e.http.get_all header_client_id headers ≡ (proven e.from_str identity).0)
      × (e.http.get_all header_client_spki headers ≡ (proven e.from_str identity).1)

  traced-Identified :
      (identity : Option PeerIdentity) (world : e.World) (r : Headers e × Option ForwardError)
      (headers : Headers e)
      → Unnamed header_client_id (e.trace_pairs world)
      → Unnamed header_client_spki (e.trace_pairs world)
      → (e.http.get_all header_client_id r.0, e.http.get_all header_client_spki r.0, r.1)
        ≡ proven e.from_str identity
      → traced e world r ≡ ok headers
      → Identified identity headers
  unfolding traced
  traced-Identified identity world (m, some x) headers q q' p h = cc h
  traced-Identified identity world (m, none) headers q q' p h =
      let made = ok_inj h in
      (
        ap (e.http.get_all header_client_id) (sym made)
            ∙ get_all-inject header_client_id (e.trace_pairs world) m q
            ∙ ap (λ t. t.0) p,
        ap (e.http.get_all header_client_spki) (sym made)
            ∙ get_all-inject header_client_spki (e.trace_pairs world) m q'
            ∙ ap (λ t. t.1) p,
      )

  identified-Identified :
      (identity : Option PeerIdentity) (world : e.World) (r : Headers e × Option ForwardError)
      (headers : Headers e)
      → Unnamed header_client_id (e.trace_pairs world)
      → Unnamed header_client_spki (e.trace_pairs world)
      → identified e identity world r ≡ ok headers
      → Identified identity headers
  unfolding identified
  identified-Identified identity world (m, some x) headers q q' h = cc h
  identified-Identified identity world (m, none) headers q q' h =
      traced-Identified identity world (apply_identity_headers e.http e.from_str m identity) headers
        q q' (get_all-apply_identity e.http e.from_str identity m) h

  addressed-Identified :
      (identity : Option PeerIdentity) (ip : IpAddr) (m : Headers e) (world : e.World)
      (host : Option Text) (headers : Headers e)
      → Unnamed header_client_id (e.trace_pairs world)
      → Unnamed header_client_spki (e.trace_pairs world)
      → addressed e identity ip m world host ≡ ok headers
      → Identified identity headers
  unfolding addressed
  addressed-Identified identity ip m world none headers q q' h = cc h
  addressed-Identified identity ip m world (some host) headers q q' h =
      identified-Identified identity world _ headers q q' h

  -- The headers of a request to a backend have the identity that the handshake proved, whatever the
  -- client sent.
  pub outbound_headers-Identified :
      (b : Backend e) (identity : Option PeerIdentity) (ip : IpAddr) (m : Headers e)
      (world : e.World) (headers : Headers e)
      → Unnamed header_client_id (e.trace_pairs world)
      → Unnamed header_client_spki (e.trace_pairs world)
      → outbound_headers e b identity ip m world ≡ ok headers
      → Identified identity headers
  unfolding outbound_headers
  outbound_headers-Identified b identity ip m world headers q q' h =
      addressed-Identified identity ip _ world (e.from_str b.host) headers q q' h
