-- ===== src/Lib.antt =====
-- bufstream-operator: a Kubernetes operator that keeps topics, SCRAM users and ACLs of Bufstream, a
-- Kafka implementation, in the state that custom resources describe.
--
-- The program's parts. Four controllers (internal/controller) each fetch one custom resource
-- (api/v1alpha1), look up the Cluster that it names and the admin credentials in a secret, open a
-- client (internal/bufstream), make the changes through it, and write the outcome to the resource's
-- status. Topic, User and Acl carry a finalizer, which is removed once the brokers have accepted
-- the deletion of what the resource stands for. The Cluster controller checks that the brokers
-- answer, and the others wait for its Ready condition.
--
-- Which file models which part:
--   Prelude, Prelude/Int, Prelude/Tests    shared names; int16 and int32 with their wrap-around
--   Api/...        api/v1alpha1/*_types.go: the resources as records, the enumerations as strings;
--                  Api/Meta has metadata, conditions, errors and messages
--   Outside/...    what the operator calls and what is not part of it, as a record of functions
--   Bufstream/Client  internal/bufstream/client.go (NewClient, Close, CheckHealth)
--   Bufstream/Topic   internal/bufstream/topic.go (TopicExists, CreateTopic, UpdateTopic, DeleteTopic)
--   Bufstream/User    internal/bufstream/user.go (UpsertUserCredentials, DeleteUserCredentials,
--                  UserExists)
--   Bufstream/Acl     internal/bufstream/acl.go (CreateACL, DeleteACL, ACLExists, buildACL)
--   Bufstream/DevMode the dialer of internal/bufstream/client.go (devModeDialer)
--   Controller/Common, Controller/Helpers  the constants, internal/controller/cluster_helpers.go
--   Controller/Cluster  internal/controller/cluster_controller.go (Reconcile, setCondition)
--   Controller/Topic    internal/controller/topic_controller.go: Base has the names and conditions,
--                  Apply reconcileTopic, Remove reconcileDelete, Reconcile the dispatch
--   Controller/User     internal/controller/user_controller.go, in the same files
--   Controller/Acl      internal/controller/acl_controller.go, in the same files, and toACLConfig in
--                  Config
--   Controller/Setup    SetupWithManager of the four controllers
--   Process, Process/Run  what cmd/main.go calls, as a record of functions, and its runs
--   Cmd/Options, Cmd/Main  cmd/main.go: the flags and the options made of them, init and main
--   Proofs: Bufstream/Responses (the loops over responses), Bufstream/Topic/Update and Lookup,
--   Bufstream/User/Lookup, Bufstream/DevMode/Redirects, Cmd/Starts, Cmd/Hardened, and in Controller,
--   for each resource, Names (the names that the spec gives, said anew; for topics and users),
--   Rules and Live (the calls of a reconcile of a resource that is not being deleted), Readiness
--   (their order), Removal and Finalizer (the same while it is being deleted), Closes (the clients),
--   Lifecycle (when a resource is settled, and that nothing is done then), Converges, Completes and,
--   for topics, TakesOver (a reconcile that meets no obstacle), Store, Settles, Leaves and Held
--   (many reconciles over what the API server keeps; Stuck has what the three Held share), and for
--   ACLs Faithful and Decoded (the builder); for clusters Rules and Health, and Cluster/Gate and
--   Gates (what the cluster's reconcile decides for the others).
--   Examples: a concrete outside, a concrete process and runs in them.
--
-- State and operations. A Go function that calls out is an action: a function from the history of
-- the calls made so far, the latest first, to its value and the longer history. Each call is
-- recorded with its arguments and, where it matters, its answer. The answers come from the record
-- Outside, whose functions see the whole history, so that another writer, a broker or the API
-- server may answer in any way and at any time; a theorem for every Outside covers them all. The
-- laws of SetStatusCondition and AddFinalizer that some theorems assume are in Outside/Laws, and
-- hold in the concrete outside of Examples/World. A Go error is a value that keeps the calls of
-- fmt.Errorf that made it. A part of a long function that follows a branch is a definition of its
-- own: the function is their composition. A deferred Close is called after the rest of the function
-- has its outcome. A program step of cmd/main.go takes the steps made so far, and ends with a value
-- or the code with which the process ends. A nil pointer or a missing map entry is none, or the zero
-- value where the source reads the entry without a test. A map is the list of its entries in the
-- order in which the loop over it meets them.
--
-- A resource is settled where its status is of its generation and the Ready condition in it is True.
-- Its name is the one that the spec gives, or the resource's own where the spec gives none.
--
-- Bounds. Loops are structural recursion on lists: there is no fuel. int32 and int16 are integers
-- with the conversions written out. The observed generation is a natural number, as the API server
-- numbers generations from 1.
--
-- Not modelled: logging and its flags, contexts and their cancellation, the List types and the
-- registration of the types with the scheme (no logic), zz_generated.deepcopy.go (generated), the
-- chart and the other configuration, the tests. The API server, the brokers and controller-runtime
-- are parameters; where a theorem needs an API server that keeps what is written, Store says what
-- it keeps, and the theorem assumes that it serves that.
pub mod Api
pub mod Bufstream
pub mod Cmd
pub mod Controller
pub mod Examples
pub mod Outside
pub mod Prelude
pub mod Process
