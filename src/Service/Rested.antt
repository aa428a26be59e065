-- ===== src/Service/Rested.antt =====
-- No stored job is left at work by the start of the program.
use gdom.Base.{
  ◌≡◌, refl, ◌⊎◌, inl, inr, ℕ, List, [], ◌∷◌, Bool, true, false, Option, some, Result, ok, err,
  arith, subst, sym, ap, ◌∙◌, any, All, All-map, ◌==◌, ==_iff, if◌then◌else◌, Bool-cases,
}
use gdom.Base.Rules.{Comes, Leads, bind_rule, return_rule}
use gdom.Job.Types.{MigrationJob}
use gdom.Queue.Errors.{JobServiceError}
use gdom.Service.Startup.{StartupPorts, reconcile_jobs, reconcile_on_startup}
use gdom.Service.Laws.{is_at_rest, IsSameJob, IsStartup}
use gdom.Service.Turns.{IsStored, reconcile_job_rule}

-- What the store has of a job that it had at the start: the same job, at rest.
pub record IsLeft (found : Option MigrationJob) (old : MigrationJob) : Type 0 where
  pub now : MigrationJob
  pub kept : found ≡ some now
  pub same_job : IsSameJob old now
  pub rests : is_at_rest now.status ≡ true

abbrev waits_in : List MigrationJob → ℕ → Bool
waits_in jobs id = any (λ (job : MigrationJob). job.id == id) jobs

-- Between two turns, the job may still wait for its own.
record IsHeld (jobs : List MigrationJob) (found : Option MigrationJob) (old : MigrationJob)
    : Type 0 where
  pub now : MigrationJob
  pub kept : found ≡ some now
  pub same_job : IsSameJob old now
  pub rests_or_waits : (is_at_rest now.status ≡ true) ⊎ (waits_in jobs old.id ≡ true)

at_last :
    (found : Option MigrationJob) (old : MigrationJob) → IsHeld [] found old → IsLeft found old
at_last found old h = record {
  now = h.now;
  kept = h.kept;
  same_job = h.same_job;
  rests = ground (arith, h.rests_or_waits);
}

some_same : (a b : MigrationJob) → some a ≡ some b → a ≡ b
some_same a b h = ground (arith, h)

module _ {W : Type 0} (ports : StartupPorts W) (stored : W → ℕ → Option MigrationJob)
    (startup : IsStartup ports stored) (start : W) where
  abbrev AreHeld : List MigrationJob → W → Type 0
  AreHeld jobs w =
      (old : MigrationJob) → stored start old.id ≡ some old → IsHeld jobs (stored w old.id) old

  -- The turn of the job itself: it is stored at rest.
  own_turn :
      (job : MigrationJob) (jobs : List MigrationJob) (w after : W) (old : MigrationJob)
      → stored start job.id ≡ some job
      → stored start old.id ≡ some old
      → job.id ≡ old.id
      → IsHeld (job ∷ jobs) (stored w old.id) old
      → IsStored ports stored startup job w after
        ⊎ ((is_at_rest job.status ≡ true) × ((id : ℕ) → stored after id ≡ stored w id))
      → IsHeld jobs (stored after old.id) old
  own_turn job jobs w after old listed known same held turn =
      let is_old = some_same job old (sym listed ∙ (ap (stored start) same ∙ known)) in
      elim turn [
        | inl put ↦ record {
          now = put.left;
          kept = ground (arith, put.there old.id, (==_iff job.id old.id).1 same);
          same_job = subst (λ j. IsSameJob j put.left) is_old put.rested.0;
          rests_or_waits = inl put.rested.1;
        }
        | inr (rests, alone) ↦
            let at_rest = subst (λ (j : MigrationJob). is_at_rest j.status ≡ true) is_old rests in
            record {
              now = held.now;
              kept = alone old.id ∙ held.kept;
              same_job = held.same_job;
              rests_or_waits = inl (
                  ap (λ (j : MigrationJob). is_at_rest j.status) (held.same_job.untouched at_rest)
                  ∙ at_rest);
            }
      ]

  -- The turn of another job.
  other_turn :
      (job : MigrationJob) (jobs : List MigrationJob) (w after : W) (old : MigrationJob)
      → (job.id == old.id) ≡ false
      → IsHeld (job ∷ jobs) (stored w old.id) old
      → IsStored ports stored startup job w after
        ⊎ ((is_at_rest job.status ≡ true) × ((id : ℕ) → stored after id ≡ stored w id))
      → IsHeld jobs (stored after old.id) old
  other_turn job jobs w after old differs held turn =
      let same = elim turn as (λ _. stored after old.id ≡ stored w old.id) [
        | inl put ↦
            put.there old.id ∙ ap (λ b. if b then some put.left else stored w old.id) differs
        | inr (rests, alone) ↦ alone old.id
      ] in
      record {
        now = held.now;
        kept = same ∙ held.kept;
        same_job = held.same_job;
        rests_or_waits = ground (arith, differs, held.rests_or_waits);
      }

  reconcile_jobs_rule :
      (jobs : List MigrationJob) (w : W)
      → All (λ (job : MigrationJob). stored start job.id ≡ some job) jobs
      → AreHeld jobs w
      → Leads (λ _ _. Unit {0}) (reconcile_jobs ports jobs) w (λ _ after. AreHeld [] after)
  unfolding reconcile_jobs
  reconcile_jobs_rule [] w listed held = return_rule tt held
  reconcile_jobs_rule (job ∷ jobs) w listed held =
      bind_rule (reconcile_job_rule ports stored startup job w) (λ _ after turn.
        reconcile_jobs_rule jobs after listed.1 (λ old known. elim (Bool-cases (job.id == old.id)) [
          | inl same ↦
              own_turn job jobs w after old listed.0 known ((==_iff job.id old.id).0 same)
                (held old known) turn
          | inr differs ↦ other_turn job jobs w after old differs (held old known) turn
        ]))

  reconcile_on_startup_rule :
      Leads (λ _ _. Unit {0}) (reconcile_on_startup ports) start (λ _ after. AreHeld [] after)
  unfolding reconcile_on_startup
  reconcile_on_startup_rule = bind_rule (startup.clear_mutation_leases start) (λ _ cleared same.
      bind_rule (startup.list_jobs cleared) (λ jobs listed found.
        reconcile_jobs_rule jobs listed
          (All-map _ _ jobs (λ job there. sym (same job.id) ∙ there) found.1.0)
          (λ old known. record {
            now = old;
            kept = found.0 old.id ∙ (same old.id ∙ known);
            same_job = record { same = refl; untouched = λ _. refl };
            rests_or_waits = inr (found.1.1 old.id old (same old.id ∙ known));
          })))

  held_way :
      (r : Result JobServiceError (Unit {0})) (after : W)
      → r ≡ ok tt
      → Comes (λ _ _. Unit {0}) (λ _ after. AreHeld [] after) r after
      → AreHeld [] after
  held_way (ok a) after given ended = ended
  held_way (err e) after given ended = cc

  -- Where the reconciliation at the start succeeds, every job that the store had before is stored after
  -- it: the same job but for its status, its place in the queue and its last error, unchanged where it
  -- was at rest, and now neither scanning nor in a mutation that is not finished, whatever the tokens and
  -- the look at its items answered.
  pub reconcile_on_startup-AreLeft :
      (reconcile_on_startup ports start).0 ≡ ok tt
      → (old : MigrationJob) → stored start old.id ≡ some old
      → IsLeft (stored (reconcile_on_startup ports start).1 old.id) old
  reconcile_on_startup-AreLeft granted old known = at_last _ old (
      held_way (reconcile_on_startup ports start).0 (reconcile_on_startup ports start).1 granted
        reconcile_on_startup_rule.comes old known)
