-- ===== src/Controller/Cluster/Store.antt =====
-- The cluster of a name as the API server keeps it, where nobody but the controller writes it.
use bufstream_operator.Prelude.{[], ◌∷◌, ok, if◌then◌else◌}
use bufstream_operator.Api.Meta.{NamespacedName}
use bufstream_operator.Api.Cluster.{Cluster}
use bufstream_operator.Outside.{Call, Object, Trace}
use bufstream_operator.Controller.Repeats.{is_named}

-- What a call leaves: an accepted update writes metadata and spec, an accepted status update
-- writes the status, each of the object that it names.
abbrev write : NamespacedName → Call → Cluster → Cluster
write n (Call.updated (Object.cluster x) (ok _)) t = record t {
  metadata = if is_named n x.metadata then x.metadata else t.metadata;
  spec = if is_named n x.metadata then x.spec else t.spec;
}
write n (Call.status_updated (Object.cluster x) (ok _)) t = record t {
  status = if is_named n x.metadata then x.status else t.status;
}
write n _ t = t

-- The cluster of this name after the calls, where it was `t` before them.
abbrev pub stored : NamespacedName → Cluster → Trace → Cluster
stored n t [] = t
stored n t (c ∷ tr) = write n c (stored n t tr)
