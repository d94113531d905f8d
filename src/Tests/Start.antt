-- ===== src/Tests/Start.antt =====
-- The start of a process, the request contexts and the election, at concrete inputs.
use mathlib.Core.Path.{subst}
use jobit.Prelude.{
  ℕ, ◌≡◌, refl, sym, inl, inr, Bool, true, false, ◌&&◌, ◌||◌, Option, none, some, String, [], ◌==◌,
  arith, if◌then◌else◌, Bool-cases, holds,
}
use jobit.Prelude.Int.{pos}
use jobit.Job.{Time}
use jobit.Sluice.{Config, Servers, Role, main, role_of}
use jobit.Sluice.Start.{Resource, has_returned, starts, role_eq, is_tidy, starts-main}
use jobit.Api.Server.{post_cancel, v1, serve}
use jobit.Api.Context.{serve_in_context}
use jobit.Api.Context.Agree.{serve_in_context-serve}
use jobit.Leader.{
  Etcd, IsKept, Laws, System, campaigns, passes, put, Reachable, start, step, campaign, standby,
}
use jobit.Leader.Exclusive.{leads_exclusive}
use jobit.Tests.Data.{rough_world}

-- Etcd answers a scheduler, but not the tracing.
abbrev config : Config
config = record {
  role = "scheduler";
  postgres_url = "postgres://db";
  redis_addr = "redis:6379";
  etcd_endpoints = "one:2379,two:2379";
  otlp_endpoint = "trace:4318";
  http_port = pos 8080;
  metrics_port = pos 0;
  shutdown_timeout = pos 30;
}

abbrev servers : Servers
servers = record {
  tracing = false;
  postgres = true;
  redis = true;
  etcd_client = true;
  listens = false;
}

starts-main_example :
    (has_returned (main config servers).1 ≡ true)
    × ((k : Role)
        → starts k (main config servers)
          ≡ (if role_eq k (role_of config.role) && true then 1 else 0))
    × ((k : Resource) → is_tidy k (main config servers) ≡ true)
unfolding role_of
starts-main_example = starts-main config servers

abbrev location : String → Option ℕ
location s = some 0

abbrev cron : String → Option (ℕ → Time → Time)
cron s = none

abbrev earlier : String → String → Bool
earlier s t = false

serve_in_context-serve_example :
    serve_in_context location cron earlier true 9 false
      (v1 "Bearer secret" (post_cancel (some 1)))
      ""
      "fresh"
      []
      rough_world
    ≡ (
      some "fresh",
      serve location cron earlier true 9 false
          (v1 "Bearer secret" (post_cancel (some 1)))
          rough_world,
    )
serve_in_context-serve_example =
    serve_in_context-serve location cron earlier true 9 false
      (v1 "Bearer secret" (post_cancel (some 1))) "" "fresh" [] rough_world

-- An etcd with one session for each client. A lease may expire.
record Lease : Type 0 where
  holder : Option ℕ
  lost : ℕ → Bool

abbrev freed : ℕ → Lease → Lease
freed s e = record e { holder = if holds s e.holder then none else e.holder }

abbrev granted : ℕ → Lease → Bool × Lease
granted s e = elim e.holder [
  | none ↦ if e.lost s then (false, e) else (true, record e { holder = some s })
  | some t ↦ (t == s, e)
]

abbrev expired : ℕ → Lease → Lease
expired s e = record e {
  holder = if holds s e.holder then none else e.holder;
  lost = λ t. t == s || e.lost t;
}

abbrev toy : Etcd
toy = record {
  State = Lease;
  owner = λ s. s;
  holds = λ e s. holds s e.holder;
  is_lost = λ e s. e.lost s;
  new_session = λ i e. (if e.lost i then none else some i, e);
  elect = granted;
  resign = freed;
  close = freed;
  Passes = λ e e'. (s : ℕ) × (e' ≡ expired s e);
}

same_holder : (o : Option ℕ) (s t : ℕ) → holds s o ≡ true → holds t o ≡ true → s ≡ t
same_holder none s t g h = cc
same_holder (some x) s t g h = ground (arith, g, h)

elect_wins :
    (s : ℕ) (o : Option ℕ) (lost : ℕ → Bool)
    → (granted s (record { holder = o; lost = lost })).0 ≡ true
    → holds s (granted s (record { holder = o; lost = lost })).1.holder ≡ true
elect_wins s none lost h = ground (arith, h)
elect_wins s (some t) lost h = h

elect_keeps_all :
    (s t : ℕ) (o : Option ℕ) (lost : ℕ → Bool)
    → IsKept toy
        (record { holder = o; lost = lost })
        (granted s (record { holder = o; lost = lost })).1
        t
elect_keeps_all s t none lost = (λ h. cc, λ h. ground (arith, h))
elect_keeps_all s t (some u) lost = (λ h. inl h, λ h. h)

freed_keeps :
    (s t : ℕ) (o : Option ℕ) (lost : ℕ → Bool)
    → (¬ (t ≡ s))
    → IsKept toy
        (record { holder = o; lost = lost })
        (freed s (record { holder = o; lost = lost }))
        t
freed_keeps s t none lost other = (λ h. cc, λ h. h)
freed_keeps s t (some u) lost other = (λ h. inl (ground (arith, h, other)), λ h. h)

expired_keeps :
    (s t : ℕ) (o : Option ℕ) (lost : ℕ → Bool)
    → IsKept toy
        (record { holder = o; lost = lost })
        (expired s (record { holder = o; lost = lost }))
        t
expired_keeps s t none lost = (λ h. cc, λ h. ground (arith, h))
expired_keeps s t (some u) lost = (
  λ h. elim (Bool-cases (t == s)) [ inl e ↦ inr (rw e refl) | inr e ↦ inl (ground (arith, h, e)) ],
  λ h. ground (arith, h),
)

toy_laws : Laws toy
toy_laws = record {
  exclusive = λ e s t g h. same_holder e.holder s t g h;
  owned = λ i s e h. ground (arith, h);
  elected = λ s e h. elect_wins s e.holder e.lost h;
  new_session_keeps = λ i t e. (λ h. inl h, λ h. h);
  elect_keeps = λ s t e. elect_keeps_all s t e.holder e.lost;
  resign_keeps = λ s t e other. freed_keeps s t e.holder e.lost other;
  close_keeps = λ s t e other. freed_keeps s t e.holder e.lost other;
  passes_keeps =
      λ t e e' (s, p). subst (λ x. IsKept toy e x t) (sym p) (expired_keeps s t e.holder e.lost);
}

-- Instance 1 wins, its lease expires before it sees it, and instance 2 wins.
abbrev first : System toy
first = record { etcd = record { holder = none; lost = λ s. false }; phase = λ i. standby }

abbrev won : System toy
won = put toy 1 (campaign toy 1 first.etcd) first

abbrev lapsed : System toy
lapsed = record won { etcd = expired 1 won.etcd }

abbrev won_again : System toy
won_again = put toy 2 (campaign toy 2 lapsed.etcd) lapsed

won_again-Reachable : Reachable toy won_again
unfolding campaign
won_again-Reachable =
    step lapsed won_again
      (step won lapsed (step first won (start first.etcd) (campaigns 1 first refl))
        (passes won lapsed.etcd (1, refl)))
      (campaigns 2 lapsed refl)

leads_exclusive_example : ◌≡◌ {A = ℕ} 2 2
unfolding campaign
leads_exclusive_example =
    leads_exclusive toy toy_laws won_again 2 2 2 2 won_again-Reachable refl refl refl refl
