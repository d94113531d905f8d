-- ===== src/Sluice/Start.antt =====
-- cmd/sluice/main.go, main: which processes come to run their role, and what they leave open.
use jobit.Prelude.{ℕ, ◌≡◌, Bool, true, false, ◌&&◌, ◌==◌, arith, if◌then◌else◌}
use jobit.World.{count_where}
use jobit.Sluice.{
  Config, Servers, Step, open_postgres, open_redis, open_etcd, close_postgres, close_redis,
  close_etcd, Ending, returned, exited, Run, Role, not_given, api, scheduler, worker, unknown,
  role_of, run_api, start_scheduler, start_worker, run_role, launch, main, serve_api, run_scheduler,
  run_worker,
}

abbrev pub has_returned : Ending → Bool
has_returned returned = true
has_returned exited = false

-- What a process connects to.
pub data Resource : Type 0 where
  database queues election : Resource

abbrev pub opens : Resource → Step → Bool
opens database (open_postgres _) = true
opens queues (open_redis _) = true
opens election (open_etcd _) = true
opens _ _ = false

abbrev pub closes : Resource → Step → Bool
closes database close_postgres = true
closes queues close_redis = true
closes election close_etcd = true
closes _ _ = false

-- A process that returns has closed what it opened, as often; one that exits has closed nothing.
abbrev pub is_tidy : Resource → Run → Bool
is_tidy r (steps, returned) = count_where (opens r) steps == count_where (closes r) steps
is_tidy r (steps, exited) = count_where (closes r) steps == 0

abbrev pub can_serve : Role → Bool → Bool
can_serve api etcd = true
can_serve worker etcd = true
can_serve scheduler etcd = etcd
can_serve _ etcd = false

launch_returns :
    (r : Role) (c : Config) (s : Servers)
    → has_returned (launch r c s).1 ≡ (s.postgres && s.redis && can_serve r s.etcd_client)
unfolding run_role run_api start_scheduler start_worker
launch_returns not_given c s = ground arith
launch_returns api c s = ground arith
launch_returns scheduler c s = ground arith
launch_returns worker c s = ground arith
launch_returns unknown c s = ground arith

launch-is_tidy :
    (k : Resource) (r : Role) (c : Config) (s : Servers) → is_tidy k (launch r c s) ≡ true
unfolding run_role run_api start_scheduler start_worker
launch-is_tidy database not_given c s = ground arith
launch-is_tidy database api c s = ground arith
launch-is_tidy database scheduler c s = ground arith
launch-is_tidy database worker c s = ground arith
launch-is_tidy database unknown c s = ground arith
launch-is_tidy queues not_given c s = ground arith
launch-is_tidy queues api c s = ground arith
launch-is_tidy queues scheduler c s = ground arith
launch-is_tidy queues worker c s = ground arith
launch-is_tidy queues unknown c s = ground arith
launch-is_tidy election not_given c s = ground arith
launch-is_tidy election api c s = ground arith
launch-is_tidy election scheduler c s = ground arith
launch-is_tidy election worker c s = ground arith
launch-is_tidy election unknown c s = ground arith

-- The work of a role.
abbrev pub is_work : Role → Step → Bool
is_work api (serve_api _) = true
is_work scheduler run_scheduler = true
is_work worker run_worker = true
is_work _ _ = false

abbrev pub role_eq : Role → Role → Bool
role_eq not_given not_given = true
role_eq api api = true
role_eq scheduler scheduler = true
role_eq worker worker = true
role_eq unknown unknown = true
role_eq _ _ = false

-- How often the work of the role `k` is started.
abbrev pub starts : Role → Run → ℕ
starts k (steps, e) = count_where (is_work k) steps

starts-launch :
    (k r : Role) (c : Config) (s : Servers)
    → starts k (launch r c s)
      ≡ (if role_eq k r && (s.postgres && s.redis && can_serve r s.etcd_client) then 1 else 0)
unfolding run_role run_api start_scheduler start_worker
starts-launch not_given not_given c s = ground arith
starts-launch not_given api c s = ground arith
starts-launch not_given scheduler c s = ground arith
starts-launch not_given worker c s = ground arith
starts-launch not_given unknown c s = ground arith
starts-launch api not_given c s = ground arith
starts-launch api api c s = ground arith
starts-launch api scheduler c s = ground arith
starts-launch api worker c s = ground arith
starts-launch api unknown c s = ground arith
starts-launch scheduler not_given c s = ground arith
starts-launch scheduler api c s = ground arith
starts-launch scheduler scheduler c s = ground arith
starts-launch scheduler worker c s = ground arith
starts-launch scheduler unknown c s = ground arith
starts-launch worker not_given c s = ground arith
starts-launch worker api c s = ground arith
starts-launch worker scheduler c s = ground arith
starts-launch worker worker c s = ground arith
starts-launch worker unknown c s = ground arith
starts-launch unknown not_given c s = ground arith
starts-launch unknown api c s = ground arith
starts-launch unknown scheduler c s = ground arith
starts-launch unknown worker c s = ground arith
starts-launch unknown unknown c s = ground arith

-- A process starts the work of its role, once, and of no other, and returns in the end, exactly where
-- its role is one of the three, Postgres and Redis answer, and for the scheduler the client of etcd can
-- be made, whether etcd answers or not; it then has closed each connection that it opened. Otherwise it
-- exits with an error and closes none.
pub starts-main :
    (c : Config) (s : Servers)
    → let started = s.postgres && s.redis && can_serve (role_of c.role) s.etcd_client in
      (has_returned (main c s).1 ≡ started)
      × ((k : Role)
          → starts k (main c s) ≡ (if role_eq k (role_of c.role) && started then 1 else 0))
      × ((k : Resource) → is_tidy k (main c s) ≡ true)
unfolding main
starts-main c s = (
  launch_returns (role_of c.role) c s,
  λ k. starts-launch k (role_of c.role) c s,
  λ k. launch-is_tidy k (role_of c.role) c s,
)
