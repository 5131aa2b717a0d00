-- ===== src/Controller/Setup.antt =====
-- internal/controller: `SetupWithManager` of the four reconcilers, each with the name of the event
-- recorder that its reconciler was built with.
use bufstream_operator.Prelude.{String, ⊤, Result}
use bufstream_operator.Api.Meta.{Fault}
use bufstream_operator.Outside.{Kind}
use bufstream_operator.Process.{Process, Registration, controller_completed}
use bufstream_operator.Process.Run.{Run, ask}

module _ (process : Process) where
  abbrev complete : Registration → Run (Result Fault ⊤)
  complete r = ask (λ tr. process.complete tr r) (controller_completed r)

  unfoldable pub setup_topic : String → Run (Result Fault ⊤)
  setup_topic recorder =
      complete (record { watched = Kind.topic_kind; name = "topic"; recorder = recorder })

  unfoldable pub setup_user : String → Run (Result Fault ⊤)
  setup_user recorder =
      complete (record { watched = Kind.user_kind; name = "user"; recorder = recorder })

  unfoldable pub setup_cluster : String → Run (Result Fault ⊤)
  setup_cluster recorder =
      complete (record { watched = Kind.cluster_kind; name = "cluster"; recorder = recorder })

  unfoldable pub setup_acl : String → Run (Result Fault ⊤)
  setup_acl recorder =
      complete (record { watched = Kind.acl_kind; name = "acl"; recorder = recorder })
