-- ===== src/Semaphore/State.antt =====
-- The state and the operations of the semaphore actor (examples/semaphore/main.go).
use nola.Base.{
  ℕ, zero, suc, ◌+◌, ◌-◌, String, Bool, ◌&&◌, Option, none, some, List, [], ◌∷◌, take, Result, ok,
  err, panic, if◌then◌else◌, ltb, leb, str_eq, true, false,
}

-- `kv`.
pub record KeyValue : Type 0 where
  pub key : String
  pub value : String

-- The errors, each named for the place that makes it.
pub data SemaphoreError : Type 0 where
  request_exists : SemaphoreError
  unknown_key : SemaphoreError
  limit_exceeded : SemaphoreError
  not_counted : SemaphoreError
  not_positive : SemaphoreError

-- Equality of two `kv`, as of keys of a map.
unfoldable pub same : KeyValue → KeyValue → Bool
same a b = str_eq a.key b.key && str_eq a.value b.value

-- `perKeyLimits`.
unfoldable pub per_key_limit : String → Option ℕ
per_key_limit key =
    if str_eq key "user" then some 5 else if str_eq key "requestType" then some 100 else none

-- `kvCounts`. A count stays at or below its limit, so that `+` cannot wrap around.
abbrev pub Counts : Type 0
Counts = KeyValue → Option ℕ

-- `requestIDState`.
pub record RequestState : Type 0 where
  pub kvs : List KeyValue
  pub expires_at : ℕ

-- The global variables; `requestIDToKVs` in the order in which a range loop visits it.
pub record Semaphore : Type 0 where
  pub counts : Counts
  pub requests : List (String × RequestState)

pub record AcquireRequest : Type 0 where
  pub keys : List KeyValue
  pub request_id : String

-- What an index of a map of counts or limits answers, zero where there is no entry.
abbrev pub or_zero : Option ℕ → ℕ
or_zero none = 0
or_zero (some n) = n

unfoldable pub set_count : KeyValue → Option ℕ → Counts → Counts
set_count kv n c k = if same kv k then n else c k

-- The loop of a caller over `decr_kv`, up to the first error.
abbrev pub stop_at_error :
    Result SemaphoreError Counts
    → Counts
    → (Counts → Result SemaphoreError (Unit {0}) × Counts)
    → Result SemaphoreError (Unit {0}) × Counts
stop_at_error (ok c') c f = f c'
stop_at_error (err e) c f = (err e, c)
stop_at_error panic c f = (panic, c)

-- `decrKV` after the lookup of the key.
abbrev pub lower_count : KeyValue → Option ℕ → Counts → Result SemaphoreError Counts
lower_count kv none c = err SemaphoreError.not_counted
lower_count kv (some n) c =
    if leb n 0
    then err SemaphoreError.not_positive
    else ok (set_count kv (if leb (n - 1) 0 then none else some (n - 1)) c)

unfoldable pub decr_kv : KeyValue → Counts → Result SemaphoreError Counts
decr_kv kv c = lower_count kv (c kv) c

unfoldable pub decr_all : List KeyValue → Counts → Result SemaphoreError (Unit {0}) × Counts
decr_all [] c = (ok tt, c)
decr_all (kv ∷ l) c = stop_at_error (decr_kv kv c) c (decr_all l)

-- `unwind`: the keys before the index `i - 1`.
unfoldable pub unwind : List KeyValue → ℕ → Counts → Result SemaphoreError (Unit {0}) × Counts
unwind keys zero c = (ok tt, c)
unwind keys (suc j) c = decr_all (take j keys) c

-- `ok && existing.count >= perKeyLimits[kv.Key]`.
abbrev pub at_limit : KeyValue → Option ℕ → Bool
at_limit kv none = false
at_limit kv (some n) = leb (or_zero (per_key_limit kv.key)) n

unfoldable pub is_full : KeyValue → Counts → Bool
is_full kv c = at_limit kv (c kv)

-- The error of a refused key, if the unwinding succeeds.
abbrev pub refused :
    Result SemaphoreError (Unit {0}) × Counts → Result SemaphoreError (Unit {0}) × Counts
refused (ok _, c) = (err SemaphoreError.limit_exceeded, c)
refused (err e, c) = (err e, c)
refused (panic, c) = (panic, c)

-- The counting loop of `acquire` from the index `i` on, where `rest` is what it has still to visit.
unfoldable pub count_keys :
    List KeyValue → ℕ → List KeyValue → Counts → Result SemaphoreError (Unit {0}) × Counts
count_keys keys i [] c = (ok tt, c)
count_keys keys i (kv ∷ rest) c =
    let more = count_keys keys (suc i) rest (set_count kv (some (or_zero (c kv) + 1)) c) in
    if is_full kv c then refused (unwind keys i c) else more

unfoldable pub find : String → List (String × RequestState) → Option RequestState
find id [] = none
find id (r ∷ l) = if str_eq r.0 id then some r.1 else find id l

unfoldable pub delete : String → List (String × RequestState) → List (String × RequestState)
delete id [] = []
delete id (r ∷ l) = if str_eq r.0 id then l else r ∷ delete id l

unfoldable pub all_known : List KeyValue → Bool
all_known [] = true
all_known (kv ∷ l) = elim (per_key_limit kv.key) [ none ↦ false | some n ↦ all_known l ]

-- The end of `acquire`: a request whose keys are counted is stored.
abbrev pub store_request :
    AcquireRequest
    → ℕ
    → Semaphore
    → Result SemaphoreError (Unit {0}) × Counts
    → Result SemaphoreError (Unit {0}) × Semaphore
store_request req expires_at s (ok _, c) = (
  ok tt,
  record {
    counts = c;
    requests = (req.request_id, record { kvs = req.keys; expires_at = expires_at }) ∷ s.requests;
  },
)
store_request req expires_at s (err e, c) = (err e, record s { counts = c })
store_request req expires_at s (panic, c) = (panic, record s { counts = c })

unfoldable pub acquire :
    AcquireRequest → ℕ → Semaphore → Result SemaphoreError (Unit {0}) × Semaphore
acquire req expires_at s = elim (find req.request_id s.requests) [
  | some _ ↦ (err SemaphoreError.request_exists, s)
  | none ↦
      if all_known req.keys
      then store_request req expires_at s (count_keys req.keys 0 req.keys s.counts)
      else (err SemaphoreError.unknown_key, s)
]

-- The end of `release`: a request whose keys are given back is forgotten.
abbrev pub forget :
    String
    → Semaphore
    → Result SemaphoreError (Unit {0}) × Counts
    → Result SemaphoreError (Unit {0}) × Semaphore
forget id s (ok _, c) = (ok tt, record { counts = c; requests = delete id s.requests })
forget id s (err e, c) = (err e, record s { counts = c })
forget id s (panic, c) = (panic, record s { counts = c })

unfoldable pub release : String → Semaphore → Result SemaphoreError (Unit {0}) × Semaphore
release id s = elim (find id s.requests) [
  | none ↦ (ok tt, s)
  | some r ↦ forget id s (decr_all r.kvs s.counts)
]

abbrev pub keep_request :
    String × RequestState
    → Result SemaphoreError (Unit {0}) × Semaphore
    → Result SemaphoreError (Unit {0}) × Semaphore
keep_request r (e, s) = (e, record s { requests = r ∷ s.requests })

-- The range loop of `houseclean` over the requests that it has still to visit.
unfoldable pub sweep :
    ℕ → List (String × RequestState) → Counts → Result SemaphoreError (Unit {0}) × Semaphore
sweep now [] c = (ok tt, record { counts = c; requests = [] })
sweep now (r ∷ l) c =
    let given = decr_all r.1.kvs c in
    let kept = keep_request r (sweep now l c) in
    let dropped = sweep now l given.1 in
    if ltb now r.1.expires_at then kept else elim given.0 [
      | ok _ ↦ dropped
      | err e ↦ (err e, record { counts = given.1; requests = r ∷ l })
      | panic ↦ (panic, record { counts = given.1; requests = r ∷ l })
    ]

unfoldable pub houseclean : ℕ → Semaphore → Result SemaphoreError (Unit {0}) × Semaphore
houseclean now s = sweep now s.requests s.counts
