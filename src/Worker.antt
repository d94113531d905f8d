-- ===== src/Worker.antt =====
-- internal/worker/worker.go: one job from the claim to the record of its end.
pub mod Run
pub mod Holding
pub mod Outcome
pub mod Shutdown
use text.Mathlib.Text.{◌==◌ as str_eq}
use jobit.Prelude.{
  ℕ, zero, suc, ◌≡◌, All, arith, ◌*◌, String, Bool, true, false, not, ◌&&◌, Option, none, some,
  List, [], ◌∷◌, ◌++◌, map, if◌then◌else◌, leb,
}
use jobit.Prelude.Int.{pos, ◌+ℤ◌, leb_ℤ}
use jobit.Job.{Job, Time, second, should_retry}
use jobit.Job.Retry.{next_retry_at}
use jobit.World.{World, Tenant, Result, ok, err, cancelled, Call}
use jobit.Storage.Jobs.{get_job}
use jobit.Storage.Claims.{try_claim, mark_running, extend_deadline, complete_job, fail_job}
use jobit.Storage.Schedules.{get_tenants}
use jobit.Queue.{heartbeat, heartbeat_ttl, remove_from_processing}
use jobit.Queue.Shuffle.{TenantWeight, returned, weighted_shuffle}
use jobit.Queue.Fair.{AreDraws, IsPositive, tenant_id_of, weighted_shuffle-Perm}
use mathlib.Core.List.{Perm}

-- internal/job/job.go, WebhookPayload; the headers in an order of the map.
pub record WebhookPayload : Type 0 where
  pub url : String
  pub method : String
  pub headers : List (String × String)
  pub body : List ℕ

-- An HTTP request; the headers are the calls of Header.Set in their order.
pub record Request : Type 0 where
  pub method : String
  pub url : String
  pub headers : List (String × String)
  pub body : List ℕ

pub data ExecError : Type 0 where
  unknown_job_type : String → ExecError
  invalid_payload build_request webhook_request : ExecError
  webhook_returned : ℕ → ExecError

unfoldable pub has_header : String → List (String × String) → Bool
has_header k [] = false
has_header k ((l, _) ∷ hs) = if str_eq l k then true else has_header k hs

abbrev pub is_empty : List ℕ → Bool
is_empty [] = true
is_empty (_ ∷ _) = false

abbrev pub request_of : WebhookPayload → Request
request_of p = record {
  method = if str_eq p.method "" then "POST" else p.method;
  url = p.url;
  headers =
      p.headers
      ++ (if not (has_header "Content-Type" p.headers) && not (is_empty p.body)
          then ("Content-Type", "application/json") ∷ []
          else []);
  body = p.body;
}

-- `unmarshal` is json.Unmarshal; `is_valid` says that http.NewRequest accepts the method and the URL;
-- `send` is client.Do, with the status code. `none` is the nil error.
module _ (unmarshal : String → Option WebhookPayload) (is_valid : Request → Bool)
    (send : Request → Option ℕ) where
  unfoldable pub execute_webhook : Job → Option ExecError
  execute_webhook j = elim (unmarshal j.payload) [
    | none ↦ some invalid_payload
    | some p ↦
        if is_valid (request_of p)
        then elim (send (request_of p)) [
          | none ↦ some webhook_request
          | some status ↦ if leb 400 status then some (webhook_returned status) else none
        ]
        else some build_request
  ]

  unfoldable pub execute : Job → Option ExecError
  execute j = if str_eq j.kind "webhook" then execute_webhook j else some (unknown_job_type j.kind)

-- A call whose error is logged and passed over.
abbrev pub attempt : {A : Type 0} → Call A → World → World
attempt m w = (m w).1

-- A call that is given a context, which is done at the times that `ctx` says: then the servers' clients return
-- its error and ask no server.
abbrev pub under : {A : Type 0} → (ctx : Time → Bool) → Call A → Call A
under ctx m w = elim (ctx w.clock) [ true ↦ (err cancelled, w) | false ↦ m w ]

pub attempt_going :
    {A : Type 0} (ctx : Time → Bool) (m : Call A) (w : World)
    → ctx w.clock ≡ false
    → attempt (under ctx m) w ≡ attempt m w
attempt_going ctx m w e = rw (e, attempt, under)

pub attempt_done :
    {A : Type 0} (ctx : Time → Bool) (m : Call A) (w : World)
    → ctx w.clock ≡ true
    → attempt (under ctx m) w ≡ w
attempt_done ctx m w e = rw (e, attempt, under)

pub under_going :
    {A : Type 0} (ctx : Time → Bool) (m : Call A) (w : World)
    → ctx w.clock ≡ false
    → under ctx m w ≡ m w
under_going ctx m w e = rw (e, under)

-- One tick of the heartbeat goroutine, whose context ends with that of process.
unfoldable pub beat : (ctx : Time → Bool) → ℕ → ℕ → World → World
beat ctx job_id token w =
    let w' = attempt (under ctx (heartbeat job_id token)) w in
    attempt (under ctx (extend_deadline job_id token (w'.clock +ℤ pos heartbeat_ttl))) w'

-- While a job executes: `n` ticks, between which `meanwhile` is what passes of time and what the
-- other processes do.
unfoldable pub beats :
    (ctx : Time → Bool) → (meanwhile : ℕ → World → World) → ℕ → ℕ → ℕ → World → World
beats ctx meanwhile zero job_id token w = meanwhile 0 w
beats ctx meanwhile (suc n) job_id token w =
    beats ctx meanwhile n job_id token (beat ctx job_id token (meanwhile (suc n) w))

-- visibilityTimeout + 30 * time.Second
abbrev pub claim_window : ℕ
claim_window = 60 * second

-- `execute` is the run of the job, `message` is `Error()`, `intn` is rand.Intn; `ctx` is the context that Run
-- hands to process, the one that a signal to the process ends.
module _ (execute : Job → Option ExecError) (message : ExecError → String) (intn : ℕ → ℕ)
    (ctx : Time → Bool) (meanwhile : ℕ → World → World) (ticks : ℕ) where
  abbrev pub retry_time : Job → Time → Option Time
  retry_time j t =
      if should_retry j then some (next_retry_at intn (suc j.attempt) j.backoff_seconds t) else none

  -- The record of the end, by the error of the run.
  unfoldable pub finish : Job → ℕ → ℕ → ℕ → Option ExecError → World → World
  finish j job_id run_id token none w = attempt (under ctx (complete_job job_id run_id token)) w
  finish j job_id run_id token (some e) w =
      attempt (under ctx (fail_job job_id run_id token (message e) (retry_time j w.clock))) w

  unfoldable pub work : ℕ → ℕ → ℕ → ℕ → Job → World → World
  work worker_id job_id run_id token j w =
      let w1 = attempt (under ctx (mark_running job_id token)) w in
      let w2 = beats ctx meanwhile ticks job_id token w1 in
      let w3 = finish j job_id run_id token (execute j) w2 in
      attempt (under ctx (remove_from_processing worker_id job_id)) w3

  abbrev pub fetched : ℕ → ℕ → ℕ → ℕ → Result Job × World → World
  fetched worker_id job_id run_id token (err e, w) = w
  fetched worker_id job_id run_id token (ok j, w) = work worker_id job_id run_id token j w

  abbrev pub claimed_or_not : ℕ → ℕ → ℕ → Result (Bool × ℕ) × World → World
  claimed_or_not worker_id job_id token (ok (true, run_id), w) =
      fetched worker_id job_id run_id token (under ctx (get_job job_id) w)
  claimed_or_not worker_id job_id token (ok (false, _), w) =
      attempt (under ctx (remove_from_processing worker_id job_id)) w
  claimed_or_not worker_id job_id token (err e, w) =
      attempt (under ctx (remove_from_processing worker_id job_id)) w

  -- `token` and `run_id` are the `uuid.New()` of the call.
  unfoldable pub process : ℕ → ℕ → ℕ → ℕ → World → World
  process worker_id token run_id job_id w =
      claimed_or_not worker_id job_id token
        (under ctx (try_claim job_id worker_id token (w.clock +ℤ pos claim_window) run_id) w)

abbrev pub weight_of : Tenant → TenantWeight
weight_of t = record { id = t.id; weight = if leb_ℤ t.weight (pos 0) then pos 100 else t.weight }

-- The weights that the worker holds afterwards; on an error it keeps those it had.
abbrev pub held : List TenantWeight → Result (List Tenant) × World → List TenantWeight × World
held tenants (r, w') = elim r [ ok ts ↦ (map weight_of ts, w') | err e ↦ (tenants, w') ]

unfoldable pub load_tenants : List TenantWeight → World → List TenantWeight × World
load_tenants tenants w = held tenants (get_tenants w)

weight_of-IsPositive : (ts : List Tenant) → All IsPositive (map weight_of ts)
weight_of-IsPositive [] = tt
weight_of-IsPositive (t ∷ ts) = (ground arith, weight_of-IsPositive ts)

pub load_tenants-IsPositive :
    (tenants : List TenantWeight) (w : World)
    → All IsPositive tenants
    → All IsPositive (load_tenants tenants w).0
unfolding load_tenants
load_tenants-IsPositive tenants w a = go (get_tenants w)
  where
    go : (p : Result (List Tenant) × World) → All IsPositive (held tenants p).0
    go (ok ts, w') = weight_of-IsPositive ts
    go (err e, w') = a

-- However Postgres answers, the weights that a worker holds after loadTenants are positive when
-- those it held before are, so that with legal draws weightedShuffle does not panic on them and
-- lists each tenant once.
pub load_tenants-shuffle :
    (tenants : List TenantWeight) (intn : ℕ → ℕ → ℕ) (w : World)
    → All IsPositive tenants
    → AreDraws intn
    → let loaded = (load_tenants tenants w).0 in
      All IsPositive loaded
      × (order : List ℕ) × (weighted_shuffle intn loaded ≡ returned order)
      × Perm order (map tenant_id_of loaded)
load_tenants-shuffle tenants intn w a draws =
    let positive = load_tenants-IsPositive tenants w a in
    let (order, ends, perm) =
      weighted_shuffle-Perm intn (load_tenants tenants w).0 draws positive in
    (positive, order, ends, perm)
