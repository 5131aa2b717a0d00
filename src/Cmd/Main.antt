-- ===== src/Cmd/Main.antt =====
-- cmd/main.go: `init` and `main`. Logging and the logger's own flags have no counterpart.
use bufstream_operator.Prelude.{⊤}
use bufstream_operator.Process.{
  Process, Flags, client_go, bufstream_v1alpha1, group_added, config_loaded, manager_created,
  healthz_added, readyz_added, manager_started,
}
use bufstream_operator.Process.Run.{Run, ◌>>=◌, ◌>>◌, given, ask, attempt}
use bufstream_operator.Controller.Setup.{setup_topic, setup_user, setup_cluster, setup_acl}
use bufstream_operator.Cmd.Options.{default_flags, manager_options}

module _ (process : Process) where
  -- utilruntime.Must panics on an error: the process ends with code 2.
  unfoldable pub init : Run ⊤
  init = do
    attempt 2 (ask (λ tr. process.add_group tr client_go) (group_added client_go))
    attempt 2 (ask (λ tr. process.add_group tr bufstream_v1alpha1) (group_added bufstream_v1alpha1))

  -- `main` from ctrl.GetConfigOrDie on, which ends the process with code 1 where there is none.
  unfoldable pub boot : Flags → Run ⊤
  boot flags = do
    attempt 1 (ask (λ tr. process.get_config tr) config_loaded)
    attempt 1 (
        ask (λ tr. process.new_manager tr (manager_options flags))
          (manager_created (manager_options flags)))
    attempt 1 (setup_topic process "topic-controller")
    attempt 1 (setup_user process "user-controller")
    attempt 1 (setup_cluster process "cluster-controller")
    attempt 1 (setup_acl process "acl-controller")
    attempt 1 (ask (λ tr. process.add_healthz_check tr "healthz") (healthz_added "healthz"))
    attempt 1 (ask (λ tr. process.add_readyz_check tr "readyz") (readyz_added "readyz"))
    attempt 1 (ask (λ tr. process.start tr) manager_started)

  unfoldable pub main : Run ⊤
  main = do flags ← given (process.parse default_flags); boot flags

  -- The Go runtime calls `init`, then `main`.
  unfoldable pub program : Run ⊤
  program = do init; main
