-- ===== src/Cmd/Starts.antt =====
-- The order of the program's start.
use bufstream_operator.Prelude.{ℕ, ◌≡◌, refl, ◌⊎◌, inl, inr, List, [], ◌∷◌, ⊤, Result, ok, err}
use bufstream_operator.Api.Meta.{Fault}
use bufstream_operator.Outside.{Kind}
use bufstream_operator.Process.{
  Process, Flags, Step, Group, client_go, bufstream_v1alpha1, group_added, config_loaded,
  manager_created, controller_completed, healthz_added, readyz_added, manager_started,
}
use bufstream_operator.Process.Run.{Run, ◌>>=◌, ◌>>◌, proceed, given, ask, attempt, exit_on_error}
use bufstream_operator.Controller.Setup.{setup_topic, setup_user, setup_cluster, setup_acl}
use bufstream_operator.Cmd.Options.{default_flags, manager_options}
use bufstream_operator.Cmd.Main.{init, boot, main, program}

-- A list of steps, each with the code with which the process ends where the step fails.
abbrev pub Plan : Type 0
Plan = List (ℕ × (Result Fault ⊤ → Step))

-- From one history to another the plan was followed: each step answered without an error, which
-- ends in `end`, or the first ones up to one that failed, with whose code the process ends.
abbrev pub Followed : Plan → Result ℕ ⊤ → List Step → Result ℕ ⊤ → List Step → Type 0
Followed [] end tr r tr' = (r ≡ end) × (tr' ≡ tr)
Followed ((code, step) ∷ plan) end tr r tr' =
    Followed plan end (step (ok tt) ∷ tr) r tr'
    ⊎ ((e : Fault) × (r ≡ err code) × (tr' ≡ step (err e) ∷ tr))

abbrev pub boot_plan : Flags → Plan
boot_plan flags =
    (1, config_loaded)
    ∷ (1, manager_created (manager_options flags))
    ∷ (
      1,
      controller_completed
          (record { watched = Kind.topic_kind; name = "topic"; recorder = "topic-controller" }),
    )
    ∷ (
      1,
      controller_completed
          (record { watched = Kind.user_kind; name = "user"; recorder = "user-controller" }),
    )
    ∷ (
      1,
      controller_completed (record {
        watched = Kind.cluster_kind;
        name = "cluster";
        recorder = "cluster-controller";
      }),
    )
    ∷ (
      1,
      controller_completed
          (record { watched = Kind.acl_kind; name = "acl"; recorder = "acl-controller" }),
    )
    ∷ (1, healthz_added "healthz")
    ∷ (1, readyz_added "readyz")
    ∷ (1, manager_started)
    ∷ []

-- The plan of the whole program: the scheme, then what the flags leave of it.
abbrev pub program_plan : Result ℕ Flags → Plan
program_plan (ok flags) =
    (2, group_added client_go) ∷ (2, group_added bufstream_v1alpha1) ∷ boot_plan flags
program_plan (err code) = (2, group_added client_go) ∷ (2, group_added bufstream_v1alpha1) ∷ []

abbrev pub program_end : Result ℕ Flags → Result ℕ ⊤
program_end (ok flags) = ok tt
program_end (err code) = err code

record Follows (plan : Plan) (end : Result ℕ ⊤) (m : Run ⊤) : Type 0 where
  at : (tr : List Step) → Followed plan end tr (m tr).0 (m tr).1

module _ (code : ℕ) (step : Result Fault ⊤ → Step) where
  answered-last :
      (r : Result Fault ⊤) (tr : List Step)
      → let done = exit_on_error code r (step r ∷ tr) in
        Followed ((code, step) ∷ []) (ok tt) tr done.0 done.1
  unfolding exit_on_error
  answered-last (ok a) tr = inl (refl, refl)
  answered-last (err e) tr = inr (e, refl, refl)

  answered-then :
      (plan : Plan) (end : Result ℕ ⊤) (m : Run ⊤) (r : Result Fault ⊤) (tr : List Step)
      → Follows plan end m
      → let done = proceed (exit_on_error code r (step r ∷ tr)) (λ _. m) in
        Followed ((code, step) ∷ plan) end tr done.0 done.1
  unfolding exit_on_error proceed
  answered-then plan end m (ok a) tr k = inl (k.at _)
  answered-then plan end m (err e) tr k = inr (e, refl, refl)

  attempt-Follows :
      (answer : List Step → Result Fault ⊤)
      → Follows ((code, step) ∷ []) (ok tt) (attempt code (ask answer step))
  unfolding attempt ask ◌>>=◌ proceed
  attempt-Follows answer = record { at = λ tr. answered-last (answer tr) tr }

  attempt_then-Follows :
      (answer : List Step → Result Fault ⊤) (plan : Plan) (end : Result ℕ ⊤) (m : Run ⊤)
      → Follows plan end m
      → Follows ((code, step) ∷ plan) end (attempt code (ask answer step) >> m)
  unfolding attempt ask ◌>>=◌ ◌>>◌ proceed
  attempt_then-Follows answer plan end m k = record {
    at = λ tr. answered-then plan end m (answer tr) tr k;
  }

boot-Follows :
    (process : Process) (flags : Flags) → Follows (boot_plan flags) (ok tt) (boot process flags)
unfolding boot setup_topic setup_user setup_cluster setup_acl
boot-Follows process flags = attempt_then-Follows _ _ _ _ _ _ (
    attempt_then-Follows _ _ _ _ _ _ (
      attempt_then-Follows _ _ _ _ _ _ (
        attempt_then-Follows _ _ _ _ _ _ (
          attempt_then-Follows _ _ _ _ _ _ (
            attempt_then-Follows _ _ _ _ _ _ (
              attempt_then-Follows _ _ _ _ _ _
                (attempt_then-Follows _ _ _ _ _ _ (attempt-Follows _ _ _))))))))

proceed_assoc :
    (x : Result ℕ ⊤ × List Step) (b c : Run ⊤)
    → proceed (proceed x (λ _. b)) (λ _. c) ≡ proceed x (λ _. b >> c)
unfolding proceed ◌>>◌
proceed_assoc (ok a, tr) b c = refl
proceed_assoc (err code, tr) b c = refl

init-Follows :
    (process : Process) (plan : Plan) (end : Result ℕ ⊤) (m : Run ⊤)
    → Follows plan end m
    → Follows
        ((2, group_added client_go) ∷ (2, group_added bufstream_v1alpha1) ∷ plan)
        end
        (init process >> m)
unfolding init ◌>>◌
init-Follows process plan end m k =
    let add : Group → Run ⊤ = λ g. attempt 2 (ask (λ tr. process.add_group tr g) (group_added g)) in
    record {
      at = λ tr.
          rw (proceed_assoc (add client_go tr) (add bufstream_v1alpha1) m)
            ((attempt_then-Follows _ _ _ _ _ _ (attempt_then-Follows _ _ _ _ _ _ k)).at tr);
    }

module _ (process : Process) where
  abbrev boot_or_end : Result ℕ Flags → Run ⊤
  boot_or_end parsed = given parsed >>= boot process

  -- For each outcome of the flags, the program follows its plan.
  program_follows :
      (parsed : Result ℕ Flags) (tr : List Step)
      → let done = (init process >> boot_or_end parsed) tr in
        Followed (program_plan parsed) (program_end parsed) tr done.0 done.1
  unfolding given ◌>>=◌ proceed
  program_follows (ok flags) tr =
      (init-Follows process (boot_plan flags) (ok tt) _
          (record { at = (boot-Follows process flags).at })).at
        tr
  program_follows (err code) tr =
      (init-Follows process [] (err code) _ (record { at = λ tr. (refl, refl) })).at tr

  -- From the start of the process, whatever the calls answer: the two groups of types are added to
  -- the scheme, the process ending with code 2 where one fails; where the flags end the process,
  -- that is the end; otherwise the configuration is loaded, the manager is created with the options
  -- of the flags, the four controllers, the health check and the ready check are added, and the
  -- manager is started, in this order; the first of these that fails is the last call that is made,
  -- and ends the process with code 1; and where none fails, `main` returns.
  pub program-Followed :
      let parsed = process.parse default_flags in
      Followed
        (program_plan parsed)
        (program_end parsed)
        []
        (program process []).0
        (program process []).1
  unfolding program main
  program-Followed = program_follows (process.parse default_flags) []
