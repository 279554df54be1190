-- ===== src/Transport/Delivery.antt =====
-- transport.go: what it means that Send reports no error.
use statokgo.Prelude.{
  length, length-append, ℕ, ◌≤◌, ◌<◌, leb, ltb, ◌==◌, ◌&&◌, ◌||◌, not, false, Bytes, List, [], ◌∷◌,
  ◌++◌, Option, none, some, ◌≡◌, ◌≢◌, refl, arith, is_empty, if_ind, Bool-cases, inl, inr,
}
use statokgo.Float.{Float}
use statokgo.Batch.{Payload, empty}
use statokgo.LineProtocol.{
  DictionaryState, new_dictionary_state, encode_line_payload_v4, write_header,
}
use statokgo.Go.Strings.{trim_space}
use statokgo.Config.{valid_workload}
use statokgo.Transport.{
  HttpTransport, SendError, Request, Outcome, failed, answered, Answer, SendResult, Link,
  read_outcome, refused, is_unknown_dictionary, reset_dictionary, needs_dictionary,
  ensure_dictionary, encode_step, send_body, resync, react, send_locked, send,
  should_stop_on_status, should_stop_on_response_code, extract_response_code,
  status_request_entity_too_large,
}

module _ (exchange : List Request → Request → Outcome) where
  -- The last request stands behind the first `start` ones, carries the batch ID, and was answered with
  -- a status from 200 to 299.
  pub record IsDelivered (start : ℕ) (batch_id : Bytes) (l : Link) : Type 0 where
    pub before : List Request
    pub last : Request
    pub answer : Answer
    pub recent : start ≤ length before
    pub same_batch : last.batch_id ≡ trim_space batch_id
    pub is_last : l.requests ≡ before ++ last ∷ []
    pub answers : exchange before last ≡ answered answer
    pub success : (200 ≤ answer.status) × (answer.status < 300)

refused-error : (t : HttpTransport) (r : Request) (a : Answer) → (refused t r a).1 ≢ none
unfolding refused
refused-error t r a =
    if_ind (λ (x : SendResult × Option SendError). x.1 ≢ none)
      (should_stop_on_status t a.status
        || should_stop_on_response_code t (extract_response_code a.code))
      _ _ (λ stop e. absurd (cc)) (λ plain e. absurd (cc))

read_outcome-none :
    (t : HttpTransport) (r : Request) (o : Outcome)
    → (read_outcome t r o).1 ≡ none
    → (a : Answer) × (o ≡ answered a) × (200 ≤ a.status) × (a.status < 300)
unfolding read_outcome
read_outcome-none t r (failed c) h = absurd (cc)
read_outcome-none t r (answered a) h = elim (Bool-cases (leb 200 a.status && ltb a.status 300)) [
  | inl fine ↦ (a, refl, ground arith, ground arith)
  | inr bad ↦ absurd (refused-error t r a (rw bad at h))
]

module _ {V : Type 0} (F : Float V) (clock : ℕ → ℕ)
    (exchange : List Request → Request → Outcome) where
  OnNone : ℕ → Bytes → Option SendError × Link → Type 0
  OnNone start batch_id r = r.0 ≡ none → IsDelivered exchange start batch_id r.1

  reset_dictionary-IsDelivered :
      (start : ℕ) (batch_id : Bytes) (l : Link)
      → IsDelivered exchange start batch_id l
      → IsDelivered exchange start batch_id (reset_dictionary F clock exchange l)
  unfolding reset_dictionary
  reset_dictionary-IsDelivered start batch_id l h = record {
    before = h.before;
    last = h.last;
    answer = h.answer;
    recent = h.recent;
    same_batch = h.same_batch;
    is_last = h.is_last;
    answers = h.answers;
    success = h.success;
  }

  send_body-OnNone :
      (start : ℕ) (body workload batch_id : Bytes) (l : Link)
      → start ≤ length l.requests
      → OnNone start batch_id (
        (send_body F clock exchange body workload batch_id l).0.1,
        (send_body F clock exchange body workload batch_id l).1,
      )
  unfolding OnNone send_body
  send_body-OnNone start body workload batch_id l k h =
      let request : Request = record {
        body = body;
        header = l.transport.header;
        authorization = l.transport.api_key;
        workload = trim_space workload;
        batch_id = trim_space batch_id;
      } in
      let (a, e, low, high) =
        read_outcome-none l.transport request (exchange l.requests request) h in
      record {
        before = l.requests;
        last = request;
        answer = a;
        recent = k;
        same_batch = refl;
        is_last = refl;
        answers = e;
        success = (low, high);
      }

  pub encode_step-requests :
      (p : Payload V) (l : Link) → (encode_step F clock exchange p l).1.requests ≡ l.requests
  unfolding encode_step
  encode_step-requests p l = ground arith

  pub reset_dictionary-requests :
      (l : Link) → (reset_dictionary F clock exchange l).requests ≡ l.requests
  unfolding reset_dictionary
  reset_dictionary-requests l = refl

  pub ensure_dictionary-requests :
      (l : Link) → (ensure_dictionary F clock exchange l).requests ≡ l.requests
  unfolding ensure_dictionary
  ensure_dictionary-requests l =
      if_ind (λ (k : Link). k.requests ≡ l.requests)
        (needs_dictionary F clock exchange l.transport.dict) _ l
        (λ needed. reset_dictionary-requests l) (λ there. refl)

  send_body-requests :
      (body workload batch_id : Bytes) (l : Link)
      → length l.requests ≤ length (send_body F clock exchange body workload batch_id l).1.requests
  unfolding send_body
  send_body-requests body workload batch_id l = rw length-append (omega arith)

  resync-OnNone :
      (start : ℕ) (p : Payload V) (workload : Bytes) (first : SendError) (l : Link)
      → start ≤ length l.requests
      → OnNone start p.batch_id (resync F clock exchange p workload first l)
  unfolding resync OnNone
  resync-OnNone start p workload first l k =
      let (body, l') = encode_step F clock exchange p (reset_dictionary F clock exchange l) in
      let k' : start ≤ length l'.requests =
        rw
          (
            encode_step-requests p (reset_dictionary F clock exchange l),
            reset_dictionary-requests l,
          )
          k in
      if_ind (OnNone start p.batch_id) (is_empty body) _ _ (λ nothing e. absurd (cc))
        (λ some_body.
          if_ind (OnNone start p.batch_id)
            ((send_body F clock exchange body workload p.batch_id l').0.0.status_code
              == status_request_entity_too_large)
            _ _
            (λ large e.
              reset_dictionary-IsDelivered start p.batch_id _
                (send_body-OnNone start body workload p.batch_id l' k' e))
            (λ fits e. send_body-OnNone start body workload p.batch_id l' k' e))

  react-OnNone :
      (start : ℕ) (p : Payload V) (workload : Bytes) (result : SendResult) (err : Option SendError)
      (l : Link)
      → start ≤ length l.requests
      → OnNone start p.batch_id (err, l)
      → OnNone start p.batch_id (react F clock exchange p workload result err l)
  unfolding react OnNone
  react-OnNone start p workload result none l k h = h
  react-OnNone start p workload result (some err) l k h =
      if_ind (OnNone start p.batch_id) (result.status_code == status_request_entity_too_large) _ _
        (λ large e. absurd (cc))
        (λ fits.
          if_ind (OnNone start p.batch_id) (is_unknown_dictionary result) _ _
            (λ unknown. resync-OnNone start p workload err l k) (λ other e. absurd (cc)))

  encode_some :
      (p : Payload V) (d : DictionaryState)
      → empty p ≡ false
      → is_empty (encode_line_payload_v4 F p d false).0 ≡ false
  unfolding encode_line_payload_v4 write_header
  encode_some p d h = rw h refl

  encode_step_at :
      (p : Payload V) (l : Link) (d : DictionaryState)
      → l.transport.dict ≡ some d
      → empty p ≡ false
      → is_empty (encode_step F clock exchange p l).0 ≡ false
  unfolding encode_step
  encode_step_at p l d at h = rw at (encode_some p d h)

  dictionary_there :
      (o : Option DictionaryState)
      → needs_dictionary F clock exchange o ≡ false
      → (d : DictionaryState) × (o ≡ some d)
  unfolding needs_dictionary
  dictionary_there none h = absurd (cc)
  dictionary_there (some d) h = (d, refl)

  encode_step_some :
      (p : Payload V) (l : Link)
      → empty p ≡ false
      → is_empty (encode_step F clock exchange p (ensure_dictionary F clock exchange l)).0 ≡ false
  unfolding ensure_dictionary reset_dictionary
  encode_step_some p l h =
      if_ind (λ (k : Link). is_empty (encode_step F clock exchange p k).0 ≡ false)
        (needs_dictionary F clock exchange l.transport.dict) _ l
        (λ needed. encode_step_at p _ (new_dictionary_state (clock l.reads)) refl h)
        (λ there.
          let (d, at) = dictionary_there l.transport.dict there in encode_step_at p l d at h)

  -- If Send reports no error for a payload that is not empty, then it made a request, and the last
  -- one that it made carries the batch ID (less white space at its ends) and was answered with a
  -- status from 200 to 299.
  pub send-IsDelivered :
      (p : Payload V) (workload : Bytes) (l : Link)
      → (send F clock exchange p workload l).0 ≡ none
      → empty p ≡ false
      → IsDelivered exchange (length l.requests) p.batch_id (send F clock exchange p workload l).1
  unfolding send send_locked OnNone
  send-IsDelivered p workload l h full =
      let (body, l') = encode_step F clock exchange p (ensure_dictionary F clock exchange l) in
      let ((result, err), l'') = send_body F clock exchange body workload p.batch_id l' in
      let k : length l.requests ≤ length l'.requests =
        rw
          (
            encode_step-requests p (ensure_dictionary F clock exchange l),
            ensure_dictionary-requests l,
          )
          (omega arith) in
      let k' = send_body-requests body workload p.batch_id l' in
      let locked : OnNone (length l.requests) p.batch_id
          (send_locked F clock exchange p workload l) =
        rw (encode_step_some p l full) (
          react-OnNone (length l.requests) p workload result err l'' (omega (arith, k, k'))
            (send_body-OnNone (length l.requests) body workload p.batch_id l' k)) in
      if_ind (OnNone (length l.requests) p.batch_id) (is_empty l.transport.endpoint) _ _
        (λ no_endpoint e. absurd (cc))
        (λ endpoint.
          if_ind (OnNone (length l.requests) p.batch_id) (not (valid_workload workload)) _ _
            (λ invalid e. absurd (cc)) (λ valid. rw full locked))
        h
