-- ===== src/Client/Posts.antt =====
-- client.go with transport.go: the worker that sends through the HTTP transport, and the requests that
-- its batches come to.
use statokgo.Prelude.{
  ℕ, ◌+◌, ◌*◌, ◌^◌, ◌≤◌, ◌<◌, ◌==◌, not, Bytes, List, [], ◌∷◌, ◌++◌, Option, none, some, ◌≡◌, ap,
  ◌∙◌, arith, All, All-append, bytes_eq, is_empty, if◌then◌else◌, if_ind,
}
use statokgo.Float.{Float}
use statokgo.Event.{Event}
use statokgo.Batch.{Payload, empty}
use statokgo.Config.{valid_workload}
use statokgo.Go.Strconv.{format_base36}
use statokgo.Go.Strconv.Base36.{format_base36-IsPlain}
use statokgo.Go.Strings.{trim_space}
use statokgo.Go.Strings.Plain.{IsPlain, trim_space_plain}
use statokgo.Transport.{
  Request, Outcome, SendError, SendResult, Link, reset_dictionary, ensure_dictionary, encode_step,
  send_body, resync, react, send_locked, send, is_unknown_dictionary,
  status_request_entity_too_large,
}
use statokgo.Transport.Delivery.{
  encode_step-requests, reset_dictionary-requests, ensure_dictionary-requests,
}
use statokgo.Client.Worker.{World, Input, new_worker, batch_id, run, drain}
use statokgo.Client.Worker.Attempts.{times, IsIssued}
use statokgo.Client.Worker.Budget.{sent_eight_times, sent-IsIssued}

-- strconv.FormatInt(time.Now().UnixNano(), 36), of a time after 1970
unfoldable pub new_batch_session_id : ℕ → Bytes
new_batch_session_id now = format_base36 now

-- how many requests carry the batch ID
unfoldable pub posted : Bytes → List Request → ℕ
posted id [] = 0
posted id (r ∷ rs) = (if bytes_eq r.batch_id id then 1 else 0) + posted id rs

posted-append :
    (id : Bytes) (rs : List Request) (r : Request)
    → posted id (rs ++ r ∷ []) ≡ posted id rs + (if bytes_eq r.batch_id id then 1 else 0)
unfolding posted
posted-append id [] r = omega arith
posted-append id (x ∷ rs) r = omega (arith, posted-append id rs r)

-- 1 for a payload whose requests carry the batch ID
due : {V : Type 0} → Bytes → Payload V → ℕ
due id p = if bytes_eq (trim_space p.batch_id) id then 1 else 0

module _ {V : Type 0} (F : Float V) (clock : ℕ → ℕ)
    (exchange : List Request → Request → Outcome) where
  -- the transport behind the sends of a log, the oldest first
  unfoldable pub deliver : Bytes → List (Payload V) → Link → Link
  deliver workload [] l = l
  deliver workload (p ∷ ps) l = deliver workload ps (send F clock exchange p workload l).1

  -- newClient with an HTTPTransport: what the worker knows of the transport is what Send answers after
  -- the earlier calls.
  unfoldable pub wired : (Bytes → List Bytes → ℕ) → ℕ → Bytes → Link → World V
  unfolding deliver new_batch_session_id
  wired series_hash now workload l = record {
    series_hash = series_hash;
    batch_session = new_batch_session_id now;
    clock = clock;
    transport = λ log p. (send F clock exchange p workload (deliver workload log l)).0;
  }

  module _ (id workload : Bytes) (p : Payload V) where
    send_body-posted :
        (body : Bytes) (l : Link)
        → posted id (send_body F clock exchange body workload p.batch_id l).1.requests
          ≡ posted id l.requests + due id p
    unfolding send_body due
    send_body-posted body l = posted-append id l.requests _

    -- at most n requests more that are due
    Adds : ℕ → Link → Link → Type 0
    Adds n l l' = posted id l'.requests ≤ posted id l.requests + n * due id p

    encode_step-posted :
        (l : Link) → posted id (encode_step F clock exchange p l).1.requests ≡ posted id l.requests
    encode_step-posted l = ap (posted id) (encode_step-requests F clock exchange p l)

    reset_dictionary-posted :
        (l : Link) → posted id (reset_dictionary F clock exchange l).requests ≡ posted id l.requests
    reset_dictionary-posted l = ap (posted id) (reset_dictionary-requests F clock exchange l)

    resync-Adds :
        (first : SendError) (l : Link) → Adds 1 l (resync F clock exchange p workload first l).1
    unfolding resync Adds
    resync-Adds first l =
        let l0 = reset_dictionary F clock exchange l in
        let (body, l') = encode_step F clock exchange p l0 in
        let ((result, err), l'') = send_body F clock exchange body workload p.batch_id l' in
        let k : posted id l'.requests ≡ posted id l.requests =
          encode_step-posted l0 ∙ reset_dictionary-posted l in
        let k' = send_body-posted body l' in
        if_ind (λ (x : Option SendError × Link). Adds 1 l x.1) (is_empty body) _ _
          (λ nothing. omega (arith, k))
          (λ some_body.
            if_ind (λ (x : Option SendError × Link). Adds 1 l x.1)
              (result.status_code == status_request_entity_too_large) _ _
              (λ large. omega (arith, k, k', reset_dictionary-posted l''))
              (λ fits. omega (arith, k, k')))

    react-Adds :
        (result : SendResult) (err : Option SendError) (l : Link)
        → Adds 1 l (react F clock exchange p workload result err l).1
    unfolding react Adds
    react-Adds result none l = omega arith
    react-Adds result (some err) l =
        if_ind (λ (x : Option SendError × Link). Adds 1 l x.1)
          (result.status_code == status_request_entity_too_large) _ _
          (λ large. omega (arith, reset_dictionary-posted l))
          (λ fits.
            if_ind (λ (x : Option SendError × Link). Adds 1 l x.1) (is_unknown_dictionary result) _
              _ (λ unknown. resync-Adds err l) (λ other. omega arith))

    send_locked-Adds : (l : Link) → Adds 2 l (send_locked F clock exchange p workload l).1
    unfolding send_locked Adds
    send_locked-Adds l =
        let l0 = ensure_dictionary F clock exchange l in
        let (body, l') = encode_step F clock exchange p l0 in
        let ((result, err), l'') = send_body F clock exchange body workload p.batch_id l' in
        let k : posted id l'.requests ≡ posted id l.requests =
          encode_step-posted l0 ∙ ap (posted id) (ensure_dictionary-requests F clock exchange l) in
        let k' = send_body-posted body l' in
        let k'' = react-Adds result err l'' in
        if_ind (λ (x : Option SendError × Link). Adds 2 l x.1) (is_empty body) _ _
          (λ nothing. omega (arith, k)) (λ some_body. omega (arith, k, k', k''))

    send-Adds : (l : Link) → Adds 2 l (send F clock exchange p workload l).1
    unfolding send Adds
    send-Adds l =
        if_ind (λ (x : Option SendError × Link). Adds 2 l x.1) (is_empty l.transport.endpoint) _ _
          (λ no_endpoint. omega arith)
          (λ endpoint.
            if_ind (λ (x : Option SendError × Link). Adds 2 l x.1) (not (valid_workload workload)) _
              _ (λ invalid. omega arith)
              (λ valid.
                if_ind (λ (x : Option SendError × Link). Adds 2 l x.1) (empty p) _ _
                  (λ nothing. omega arith) (λ full. send_locked-Adds l)))

  issued-IsPlain :
      (now seq : ℕ) (id : Bytes) → IsIssued (new_batch_session_id now) seq id → trim_space id ≡ id
  unfolding new_batch_session_id batch_id
  issued-IsPlain now seq id (k, le, e) = trim_space_plain id (
      rw e (
        All-append IsPlain (format_base36 now) (b'-' ∷ format_base36 k) (format_base36-IsPlain now)
          ((omega arith, omega arith), format_base36-IsPlain k)))

  deliver-posted :
      (now seq : ℕ) (id workload : Bytes) (log : List (Payload V)) (l : Link)
      → All (λ p. IsIssued (new_batch_session_id now) seq p.batch_id) log
      → posted id (deliver workload log l).requests ≤ posted id l.requests + 2 * times id log
  unfolding deliver times Adds due
  deliver-posted now seq id workload [] l h = omega arith
  deliver-posted now seq id workload (p ∷ log) l (issued, h) =
      let k = send-Adds id workload p l in
      let same : due id p ≡ (if bytes_eq p.batch_id id then 1 else 0) =
        ap (λ (s : Bytes). if bytes_eq s id then 1 else 0)
          (issued-IsPlain now seq p.batch_id issued) in
      omega (
        arith,
        k,
        same,
        deliver-posted now seq id workload log (send F clock exchange p workload l).1 h,
      )

  -- The worker sends through the HTTP transport, which has made no request before. Whatever the ingester
  -- answers: as long as the 64-bit sequence number has not wrapped, no batch ID stands on more than
  -- sixteen requests, two for each of the eight attempts, from the start through the drain.
  pub posted_sixteen_times :
      (series_hash : Bytes → List Bytes → ℕ) (now : ℕ) (workload : Bytes) (l : Link)
      (is : List (Input V)) (evs : List (Event V)) (id : Bytes)
      → l.requests ≡ []
      → (drain F
          (wired series_hash now workload l)
          evs
          (run F (wired series_hash now workload l) is new_worker)).batch_seq
        < 2 ^ 64
      → posted id
          (deliver workload
            (drain F
              (wired series_hash now workload l)
              evs
              (run F (wired series_hash now workload l) is new_worker)).sent
            l).requests
        ≤ 16
  unfolding wired posted
  posted_sixteen_times series_hash now workload l is evs id fresh fits =
      let env = wired series_hash now workload l in
      let w = drain F env evs (run F env is new_worker) in
      let none_yet : posted id l.requests ≡ 0 = ap (posted id) fresh in
      omega (
        arith,
        none_yet,
        sent_eight_times F env is evs id fits,
        deliver-posted now w.batch_seq id workload w.sent l (sent-IsIssued F env is evs fits),
      )
