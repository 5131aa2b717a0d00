-- ===== src/Examples/Commands.antt =====
-- The program in a concrete process, in which the creation of the user's controller fails.
use bufstream_operator.Prelude.{true, ok, err, [], ◌∷◌}
use bufstream_operator.Outside.{Kind}
use bufstream_operator.Process.{Process, TlsConfig}
use bufstream_operator.Cmd.Options.{default_flags, manager_options}
use bufstream_operator.Cmd.Main.{program}
use bufstream_operator.Cmd.Starts.{Followed, program_plan, program_end, program-Followed}
use bufstream_operator.Cmd.Hardened.{Hardened, manager_options-Hardened}

abbrev process : Process
process = record {
  add_group = λ _ _. ok tt;
  parse = λ flags. ok (record flags { enable_leader_election = true });
  get_config = λ _. ok tt;
  new_manager = λ _ _. ok tt;
  complete = λ _ r. elim r.watched [
    | Kind.user_kind ↦ err (record { code = 1; text = "refused" })
    | _ ↦ ok tt
  ];
  add_healthz_check = λ _ _. ok tt;
  add_readyz_check = λ _ _. ok tt;
  start = λ _. ok tt;
}

program-Followed_example :
    let parsed = process.parse default_flags in
    Followed
      (program_plan parsed)
      (program_end parsed)
      []
      (program process []).0
      (program process []).1
program-Followed_example = program-Followed process

abbrev config : TlsConfig
config = record { next_protos = "h2" ∷ "http/1.1" ∷ [] }

manager_options-Hardened_example : Hardened default_flags config (manager_options default_flags)
manager_options-Hardened_example = manager_options-Hardened default_flags config
