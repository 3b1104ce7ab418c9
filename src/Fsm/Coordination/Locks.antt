-- ===== src/Fsm/Coordination/Locks.antt =====
-- What the lock annotations of internal/fsm/coordination.go say to those who read them.
use homelab_autoscaler.Prelude.{
  str_eq_of_ne, ℕ, ◌-◌, ◌*◌, ◌%◌, ◌^◌, ◌<◌, String, ◌≡◌, ◌≢◌, refl, false, Option, none, some,
  arith, str_eq, Bool, true, inl, inr, ◌⊎◌, sym, ltb, ◌+◌, if◌then◌else◌, ◌||◌,
}
use homelab_autoscaler.Prelude.Int.{ℤ, pos}
use homelab_autoscaler.Api.{Node, second}
use homelab_autoscaler.Api.Maps.{StringMap, value_of, value_of-set, value_of-delete}
use homelab_autoscaler.Api.Text.{Texts, TextLaws}
use homelab_autoscaler.Fsm.Coordination.{
  OperationLock, operation_lock_annotation, lock_owner_annotation, lock_timestamp_annotation,
  lock_timeout_annotation, times_second, is_expired_at, delete_lock, timeout_of, check_annotations,
  check_lock, with_lock, or_new_map,
}

-- No whole number of seconds below 2^63 nanoseconds wraps around.
times_second_exact : (n : ℕ) → n * second < 2 ^ 63 → times_second (pos n) ≡ pos (n * second)
unfolding times_second
times_second_exact n h = ground arith

-- What `check_annotations` makes of four texts.
check_texts : (t : Texts) (operation owner timestamp timeout : String) → Option OperationLock
check_texts t operation owner timestamp timeout =
    if str_eq operation "" || str_eq owner "" || str_eq timestamp ""
    then none
    else elim (t.parse_time timestamp) [
      | none ↦ none
      | some time ↦ some (record {
        operation = operation;
        owner = owner;
        timestamp = time;
        timeout = timeout_of t timeout;
      })
    ]

check_annotations_lem :
    (t : Texts) (m : StringMap)
    → check_annotations t m
      ≡ check_texts t
          (value_of m operation_lock_annotation)
          (value_of m lock_owner_annotation)
          (value_of m lock_timestamp_annotation)
          (value_of m lock_timeout_annotation)
unfolding check_annotations check_texts
check_annotations_lem t m = refl

-- The first test with what follows it, as functions of their results.
found_texts :
    (b : Bool) (operation owner : String) (time : Option ℕ) (timeout : ℤ) (lock : OperationLock)
    → (if b then none else elim time [
      | none ↦ none
      | some now ↦
          some (record { operation = operation; owner = owner; timestamp = now; timeout = timeout })
    ])
      ≡ some lock
    → (lock.owner ≡ owner) × (lock.timeout ≡ timeout)
found_texts true operation owner time timeout lock h = absurd (cc)
found_texts false operation owner none timeout lock h = absurd (cc)
found_texts false operation owner (some now) timeout lock h = (ground arith, ground arith)

-- The owner and the timeout of a lock that is found are what the annotations say.
pub check_annotations-found :
    (t : Texts) (m : StringMap) (lock : OperationLock)
    → check_annotations t m ≡ some lock
    → (lock.owner ≡ value_of m lock_owner_annotation)
      × (lock.timeout ≡ timeout_of t (value_of m lock_timeout_annotation))
unfolding check_annotations
check_annotations-found t m lock h =
    found_texts _ _ _ (t.parse_time (value_of m lock_timestamp_annotation)) _ lock h

module _ (t : Texts) (laws : TextLaws t) where
  timeout_of-format :
      (n : ℕ)
      → n * second < 2 ^ 63
      → timeout_of t (t.format_seconds (pos (n * second))) ≡ pos (n * second)
  unfolding timeout_of
  timeout_of-format n h =
      rw (str_eq_of_ne _ _ (laws.seconds_not_empty (pos (n * second))))
        (rw (laws.seconds_round_trip n (omega arith)) (times_second_exact n h))

  check_texts-format :
      (operation owner : String) (now n : ℕ)
      → operation ≢ ""
      → owner ≢ ""
      → n * second < 2 ^ 63
      → check_texts t operation owner (t.format_time now) (t.format_seconds (pos (n * second)))
        ≡ some (record {
          operation = operation;
          owner = owner;
          timestamp = now - now % second;
          timeout = pos (n * second);
        })
  unfolding check_texts
  check_texts-format operation owner now n ho hw h = rw (
    str_eq_of_ne _ _ ho,
    str_eq_of_ne _ _ hw,
    str_eq_of_ne _ _ (laws.time_not_empty now),
    laws.time_round_trip now,
    timeout_of-format n h,
  )

  -- The annotations that a lock is written as are read back as that lock, its time cut to whole
  -- seconds: with a named operation and owner and a timeout of whole seconds that fits an int64.
  pub check_lock-with_lock :
      (fresh : Node) (operation owner : String) (now n : ℕ)
      → operation ≢ ""
      → owner ≢ ""
      → n * second < 2 ^ 63
      → check_lock t (with_lock t fresh operation owner now (pos (n * second)))
        ≡ some (record {
          operation = operation;
          owner = owner;
          timestamp = now - now % second;
          timeout = pos (n * second);
        })
  unfolding check_lock with_lock
  check_lock-with_lock fresh operation owner now n ho hw h =
      rw check_annotations_lem
        (simp value_of-set (check_texts-format operation owner now n ho hw h))

-- After the four deletions no lock is read.
pub check_annotations-delete_lock :
    (t : Texts) (m : StringMap) → check_annotations t (delete_lock m) ≡ none
unfolding delete_lock check_texts
check_annotations-delete_lock t m = rw check_annotations_lem (simp value_of-delete)

abbrev pub IsLockKey : String → Type 0
IsLockKey k =
    (k ≡ operation_lock_annotation)
    ⊎ (k ≡ lock_owner_annotation)
    ⊎ (k ≡ lock_timestamp_annotation)
    ⊎ (k ≡ lock_timeout_annotation)

module _ (k : String) (h : ¬ (IsLockKey k)) where
  other_key :
      (str_eq operation_lock_annotation k ≡ false)
      × (str_eq lock_owner_annotation k ≡ false)
      × (str_eq lock_timestamp_annotation k ≡ false)
      × (str_eq lock_timeout_annotation k ≡ false)
  other_key = (
    str_eq_of_ne _ k (λ p. h (inl (sym p))),
    str_eq_of_ne _ k (λ p. h (inr (inl (sym p)))),
    str_eq_of_ne _ k (λ p. h (inr (inr (inl (sym p))))),
    str_eq_of_ne _ k (λ p. h (inr (inr (inr (sym p))))),
  )

  value_of-with_lock :
      (t : Texts) (fresh : Node) (operation owner : String) (now : ℕ) (timeout : ℤ)
      → value_of (or_new_map (with_lock t fresh operation owner now timeout).annotations) k
        ≡ value_of (or_new_map fresh.annotations) k
  unfolding with_lock
  value_of-with_lock t fresh operation owner now timeout =
      simp value_of-set (rw (other_key.0, other_key.1, other_key.2, other_key.3))

  value_of-delete_lock : (m : StringMap) → value_of (delete_lock m) k ≡ value_of m k
  unfolding delete_lock
  value_of-delete_lock m =
      simp value_of-delete (rw (other_key.0, other_key.1, other_key.2, other_key.3))

-- Taking a lock and removing one both leave every annotation of another key as it was, and after
-- the removal no lock is found on the node, whoever held it.
pub locks_keep_others :
    (t : Texts) (fresh : Node) (operation owner : String) (now : ℕ) (timeout : ℤ) (m : StringMap)
    (k : String)
    → ¬ (IsLockKey k)
    → (value_of (or_new_map (with_lock t fresh operation owner now timeout).annotations) k
        ≡ value_of (or_new_map fresh.annotations) k)
      × (value_of (delete_lock m) k ≡ value_of m k)
      × (check_lock t (record fresh { annotations = some (delete_lock m) }) ≡ none)
unfolding check_lock
locks_keep_others t fresh operation owner now timeout m k h = (
  value_of-with_lock k h t fresh operation owner now timeout,
  value_of-delete_lock k h m,
  check_annotations-delete_lock t m,
)

-- With texts that are read back as they were printed, a lock that was just taken, by a named owner
-- for a named operation and n seconds, below 2^63 nanoseconds, is read back with that owner and
-- operation, and is expired exactly at the times later than n seconds after the whole second of
-- its time.
pub lock_lifetime :
    (t : Texts) (laws : TextLaws t) (fresh : Node) (operation owner : String) (now n later : ℕ)
    → operation ≢ ""
    → owner ≢ ""
    → n * second < 2 ^ 63
    → (lock : OperationLock) × (check_lock t
          (with_lock t fresh operation owner now (pos (n * second)))
        ≡ some lock)
      × (lock.owner ≡ owner)
      × (lock.operation ≡ operation)
      × (is_expired_at later lock ≡ ltb (now - now % second + n * second) later)
unfolding is_expired_at
lock_lifetime t laws fresh operation owner now n later ho hw h = (
  record {
    operation = operation;
    owner = owner;
    timestamp = now - now % second;
    timeout = pos (n * second);
  },
  check_lock-with_lock t laws fresh operation owner now n ho hw h,
  refl,
  refl,
  ground arith,
)
