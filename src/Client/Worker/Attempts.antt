-- ===== src/Client/Worker/Attempts.antt =====
-- The ledger of the batches: how often each batch ID was sent, against the attempts that the queue of
-- retries has noted. The lemmas are about a sequence number, a record of sent payloads and a queue.
use statokgo.Prelude.{
  ℕ, zero, suc, ◌+◌, ◌≤◌, ◌<◌, Bytes, List, [], ◌∷◌, ◌++◌, some, ◌≡◌, ◌≢◌, sym, arith, All,
  All-append, All-remove, subst, take, drop, get_elem?, bytes_eq, bytes_eq_iff, if◌then◌else◌,
  Bool-cases, inl, inr,
}
use statokgo.Batch.{Payload}
use statokgo.Client.Retry.{default_retry_max_attempts}
use statokgo.Client.Worker.{RetryBatch, batch_id}

-- how often a batch ID was sent
unfoldable pub times : {V : Type 0} → Bytes → List (Payload V) → ℕ
times id [] = 0
times id (p ∷ ps) = (if bytes_eq p.batch_id id then 1 else 0) + times id ps

-- one of the IDs numbered up to seq
abbrev pub IsIssued : Bytes → ℕ → Bytes → Type 0
IsIssued session seq id = (k : ℕ) × (k ≤ seq) × (id ≡ batch_id session k)

abbrev pub Absent : {V : Type 0} → Bytes → List (RetryBatch V) → Type 0
Absent id = All (λ r. r.payload.batch_id ≢ id)

abbrev pub AreDistinct : {V : Type 0} → List (RetryBatch V) → Type 0
AreDistinct [] = Unit
AreDistinct (r ∷ rs) = Absent r.payload.batch_id rs × AreDistinct rs

-- A waiting batch was sent at most as often as its attempts say, and has attempts left.
pub record IsAccounted {V : Type 0} (session : Bytes) (seq : ℕ) (log : List (Payload V))
    (r : RetryBatch V) : Type 0 where
  pub count : times r.payload.batch_id log ≤ r.attempts
  pub left : r.attempts < default_retry_max_attempts
  pub issued : IsIssued session seq r.payload.batch_id

pub record Ledger {V : Type 0} (session : Bytes) (seq : ℕ) (log : List (Payload V))
    (q : List (RetryBatch V)) : Type 0 where
  pub bounded : (id : Bytes) → times id log ≤ default_retry_max_attempts
  pub waiting : All (IsAccounted session seq log) q
  pub distinct : AreDistinct q
  pub old : All (λ p. IsIssued session seq p.batch_id) log

module _ {V : Type 0} where
  times-append :
      (id : Bytes) (log : List (Payload V)) (p : Payload V)
      → times id (log ++ p ∷ []) ≡ times id log + (if bytes_eq p.batch_id id then 1 else 0)
  unfolding times
  times-append id [] p = omega arith
  times-append id (x ∷ log) p = omega (arith, times-append id log p)

  pub times-append_self :
      (log : List (Payload V)) (p : Payload V)
      → times p.batch_id (log ++ p ∷ []) ≡ times p.batch_id log + 1
  times-append_self log p =
      ground (arith, times-append p.batch_id log p, bytes_eq_iff p.batch_id p.batch_id)

  AreDistinct-snoc :
      (q : List (RetryBatch V)) (r : RetryBatch V)
      → AreDistinct q
      → Absent r.payload.batch_id q
      → AreDistinct (q ++ r ∷ [])
  AreDistinct-snoc [] r d a = (tt, tt)
  AreDistinct-snoc (x ∷ q) r (dx, d) (ax, a) =
      (All-append _ q (r ∷ []) dx ((λ e. ax (sym e)), tt), AreDistinct-snoc q r d a)

  Absent-at :
      (id : Bytes) (q : List (RetryBatch V)) (i : ℕ) (item : RetryBatch V)
      → get_elem? q i ≡ some item
      → Absent id q
      → id ≢ item.payload.batch_id
  Absent-at id [] i item e a same = absurd (cc)
  Absent-at id (x ∷ q) zero item e (ax, a) same = ax (cc)
  Absent-at id (x ∷ q) (suc i) item e (ax, a) same = Absent-at id q i item e a same

  module _ (session : Bytes) (seq : ℕ) where
    -- a batch that is put into the queue
    pub Ledger-enqueue :
        (log : List (Payload V)) (q : List (RetryBatch V)) (r : RetryBatch V)
        → Ledger session seq log q
        → Absent r.payload.batch_id q
        → IsAccounted session seq log r
        → Ledger session seq log (q ++ r ∷ [])
    Ledger-enqueue log q r h a acc = record {
      bounded = h.bounded;
      waiting = All-append _ q (r ∷ []) h.waiting (acc, tt);
      distinct = AreDistinct-snoc q r h.distinct a;
      old = h.old;
    }

    still_accounted :
        (log : List (Payload V)) (p : Payload V) (q : List (RetryBatch V))
        → Absent p.batch_id q
        → All (IsAccounted session seq log) q
        → All (IsAccounted session seq (log ++ p ∷ [])) q
    still_accounted log p [] a h = tt
    still_accounted log p (r ∷ q) (ar, a) (hr, h) = (
      record {
        count = ground (
          arith,
          hr.count,
          times-append r.payload.batch_id log p,
          bytes_eq_iff p.batch_id r.payload.batch_id,
        );
        left = hr.left;
        issued = hr.issued;
      },
      still_accounted log p q a h,
    )

    -- a batch that is sent
    pub Ledger-send :
        (log : List (Payload V)) (q : List (RetryBatch V)) (p : Payload V)
        → Ledger session seq log q
        → Absent p.batch_id q
        → times p.batch_id log < default_retry_max_attempts
        → IsIssued session seq p.batch_id
        → Ledger session seq (log ++ p ∷ []) q
    Ledger-send log q p h a room issued = record {
      bounded = λ id. elim (Bool-cases (bytes_eq p.batch_id id)) [
        | inl same ↦
            rw (← (bytes_eq_iff p.batch_id id).0 same) (omega (arith, times-append_self log p))
        | inr other ↦ ground (arith, times-append id log p, h.bounded id)
      ];
      waiting = still_accounted log p q a h.waiting;
      distinct = h.distinct;
      old = All-append _ log (p ∷ []) h.old (issued, tt);
    }

    -- What is known of a batch that is taken out of the queue.
    pub record Taken (log : List (Payload V)) (item : RetryBatch V) (rest : List (RetryBatch V))
        : Type 0 where
      pub ledger : Ledger session seq log rest
      pub absent : Absent item.payload.batch_id rest
      pub accounted : IsAccounted session seq log item

    -- the batch at place i: what is known of it, of the other places, and how all of them differ
    pluck :
        (log : List (Payload V)) (q : List (RetryBatch V)) (i : ℕ) (item : RetryBatch V)
        → get_elem? q i ≡ some item
        → All (IsAccounted session seq log) q
        → AreDistinct q
        → IsAccounted session seq log item
          × Absent item.payload.batch_id (take i q ++ drop (suc i) q)
          × All (IsAccounted session seq log) (take i q ++ drop (suc i) q)
          × AreDistinct (take i q ++ drop (suc i) q)
    pluck log [] i item e h d = absurd (cc)
    pluck log (x ∷ q) zero item e (hx, h) (dx, d) =
        let same : x ≡ item = cc in
        (
          subst (IsAccounted session seq log) same hx,
          subst (λ (r : RetryBatch V). Absent r.payload.batch_id q) same dx,
          h,
          d,
        )
    pluck log (x ∷ q) (suc i) item e (hx, h) (dx, d) =
        let (acc, a, w, dd) = pluck log q i item e h d in
        (
          acc,
          (Absent-at x.payload.batch_id q i item e dx, a),
          (hx, w),
          (All-remove (λ r. r.payload.batch_id ≢ x.payload.batch_id) q i dx, dd),
        )

    pub Ledger-take :
        (log : List (Payload V)) (q : List (RetryBatch V)) (i : ℕ) (item : RetryBatch V)
        → get_elem? q i ≡ some item
        → Ledger session seq log q
        → Taken log item (take i q ++ drop (suc i) q)
    Ledger-take log q i item e h =
        let (acc, a, w, d) = pluck log q i item e h.waiting h.distinct in
        record {
          ledger = record { bounded = h.bounded; waiting = w; distinct = d; old = h.old };
          absent = a;
          accounted = acc;
        }
