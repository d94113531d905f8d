-- ===== src/Cli/Replay.antt =====
-- cmd/sluice-cli/main.go, cmdReplay, beside internal/api/handler.go, handleReplayJob.
use mathlib.Core.Option
use native.Mathlib.Decide.{ℕ_discrete}
use jobit.Prelude.{
  ℕ, ◌≡◌, ◌≢◌, refl, sym, ◌∙◌, ap, true, false, ◌&&◌, none, some, List, [], ◌∷◌, All, arith, ◌==◌,
  if◌then◌else◌, Bool-cases, ◌⊎◌, inl, inr,
}
use jobit.Job.{Job, state_eq, dead}
use jobit.World.{World, Tenant, ok, healthy, exec, redis_exec, find, update_where}
use jobit.World.TableLaws.{
  UniqueKeys, by_key, by_key-update, some_counted, find-holds, updated, find-by_key,
  update_where-none, count-eq-zero_iff,
}
use jobit.Storage.Jobs.{
  reset, is_replayable, replay_job, replay_statement, get_job, find_job, or_not_found, affected,
}
use jobit.Storage.Fencing.{id_of}
use jobit.Queue.{enqueue}
use jobit.Queue.Order.{after}
use jobit.Api.{ok_job, not_found_404, answer_replay, handle_replay_job}
use jobit.Cli.{printed, fatal, is_dead_row, reset_job, cmd_replay}

-- What both do to the tables, and then to the queue, of a dead job.
abbrev reset_world : ℕ → World → World
reset_world id w = record (healthy w) {
  db = record w.db { jobs = update_where (is_dead_row id) reset w.db.jobs };
}

abbrev pub with_reset : ℕ → Job → World → World
with_reset id j w = (enqueue j.tenant_id id j.priority (reset_world id w)).1

module _ (id tenant_id : ℕ) where
  absent_rows :
      (xs : List Job)
      → All (λ x. id_of x ≢ id) xs
      → update_where (is_replayable id tenant_id) reset xs ≡ update_where (is_dead_row id) reset xs
  absent_rows [] h = refl
  absent_rows (x ∷ xs) h = ground (arith, absent_rows xs h.1)

  -- The two UPDATEs differ in the test of the tenant only.
  same_rows :
      (xs : List Job) {j : Job}
      → UniqueKeys id_of xs
      → by_key id_of id xs ≡ some j
      → j.tenant_id ≡ tenant_id
      → update_where (is_replayable id tenant_id) reset xs ≡ update_where (is_dead_row id) reset xs
  same_rows [] u h e = refl
  same_rows (x ∷ xs) {j} u h e = elim (ℕ_discrete x.id id) [
    | yes k ↦
        let a : All (λ y. id_of y ≢ id) xs = rw k at u.0 in
        let own : x ≡ j = ground (arith, h, k) in
        let mine : x.tenant_id ≡ tenant_id = ap (λ y. y.tenant_id) own ∙ e in
        ground (arith, mine, absent_rows xs a)
    | no k ↦ ground (arith, same_rows xs {j = j} u.1)
  ]

module _ (t : Tenant) (id : ℕ) (j : Job) (w : World) (u : UniqueKeys id_of w.db.jobs)
    (here : by_key id_of id w.db.jobs ≡ some j) (own : j.tenant_id ≡ t.id) where
  selected :
      find (is_replayable id t.id) w.db.jobs
      ≡ (if j.tenant_id == t.id && state_eq j.state dead then some j else none)
  selected =
      find-by_key id_of id (λ x. x.tenant_id == t.id && state_eq x.state dead) w.db.jobs u
      ∙ rw here refl

  selected_dead : find (is_dead_row id) w.db.jobs ≡ (if state_eq j.state dead then some j else none)
  selected_dead = find-by_key id_of id (λ x. state_eq x.state dead) w.db.jobs u ∙ rw here refl

  cli_resets :
      state_eq j.state dead ≡ true → cmd_replay (some id) (healthy w) ≡ (printed, with_reset id j w)
  unfolding cmd_replay get_job exec reset_job enqueue redis_exec
  cli_resets e = rw (here, e) refl

  cli_refuses :
      state_eq j.state dead ≡ false → cmd_replay (some id) (healthy w) ≡ (fatal, healthy w)
  unfolding cmd_replay get_job exec reset_job
  cli_refuses e = rw (here, e) refl

  -- The row that the API reads again.
  read_again :
      by_key id_of id (update_where (is_dead_row id) reset w.db.jobs)
      ≡ some (updated (is_dead_row id) reset j)
  read_again =
      by_key-update id_of (is_dead_row id) reset (λ x e. refl) id w.db.jobs
      ∙ ap (Option.map (updated (is_dead_row id) reset)) here

  api_resets :
      state_eq j.state dead ≡ true
      → handle_replay_job t (some id) (healthy w) ≡ (ok_job (reset j), with_reset id j w)
  unfolding handle_replay_job replay_job get_job exec enqueue redis_exec
  api_resets e =
      let (n, counted) =
        some_counted (is_replayable id t.id) w.db.jobs {j = j} (ground (arith, selected, own, e)) in
      let same = same_rows id t.id w.db.jobs {j = j} u here own in
      ap
        (λ k.
          answer_replay t id
            (after (affected k, (exec (replay_statement id t.id) (healthy w)).1) (λ _. get_job id)))
        counted
      ∙ ap
          (λ js.
            answer_replay t id (
              or_not_found (find_job id js),
              record (healthy w) { db = record w.db { jobs = js } },
            ))
          same
      ∙ ap (λ o. answer_replay t id (or_not_found o, reset_world id w)) read_again
      ∙ ap (λ b. answer_replay t id (ok (if b then reset j else j), reset_world id w))
          (find-holds (is_dead_row id) {x = j} w.db.jobs (selected_dead ∙ rw e refl))
      ∙ ap (λ u. (ok_job (reset j), (enqueue u id j.priority (reset_world id w)).1)) (sym own)

  api_refuses :
      state_eq j.state dead ≡ false
      → handle_replay_job t (some id) (healthy w) ≡ (not_found_404, healthy w)
  unfolding handle_replay_job replay_job get_job exec
  api_refuses e =
      let missing : find (is_replayable id t.id) w.db.jobs ≡ none = ground (arith, selected, e) in
      ap
        (λ k.
          answer_replay t id
            (after (affected k, (exec (replay_statement id t.id) (healthy w)).1) (λ _. get_job id)))
        ((count-eq-zero_iff (is_replayable id t.id) w.db.jobs).1 missing)
      ∙ ap (λ js. (not_found_404, record (healthy w) { db = record w.db { jobs = js } }))
          (update_where-none (is_replayable id t.id) reset w.db.jobs missing)

-- While the servers answer, the operator's replay and the API's replay by the job's tenant come to the
-- same: either the job is dead, and both reset its row and push it on its queue, or it is not, both
-- refuse, and nothing changes.
pub replay_agrees :
    (t : Tenant) (id : ℕ) (j : Job) (w : World)
    → UniqueKeys id_of w.db.jobs
    → by_key id_of id w.db.jobs ≡ some j
    → j.tenant_id ≡ t.id
    → let (r, after_api) = handle_replay_job t (some id) (healthy w) in
      let (x, after_cli) = cmd_replay (some id) (healthy w) in
      (after_api ≡ after_cli)
      × ((state_eq j.state dead ≡ true)
            × (r ≡ ok_job (reset j))
            × (x ≡ printed)
            × (after_cli ≡ with_reset id j w)
          ⊎ (state_eq j.state dead ≡ false)
            × (r ≡ not_found_404)
            × (x ≡ fatal)
            × (after_cli ≡ healthy w))
replay_agrees t id j w u here own = elim (Bool-cases (state_eq j.state dead)) [
  | inl e ↦
      let api = api_resets t id j w u here own e in
      let cli = cli_resets t id j w u here own e in
      (
        ap (λ p. p.1) api ∙ sym (ap (λ p. p.1) cli),
        inl (e, ap (λ p. p.0) api, ap (λ p. p.0) cli, ap (λ p. p.1) cli),
      )
  | inr e ↦
      let api = api_refuses t id j w u here own e in
      let cli = cli_refuses t id j w u here own e in
      (
        ap (λ p. p.1) api ∙ sym (ap (λ p. p.1) cli),
        inr (e, ap (λ p. p.0) api, ap (λ p. p.0) cli, ap (λ p. p.1) cli),
      )
]
