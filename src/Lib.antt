-- ===== src/Lib.antt =====
-- The mosquitto-operator: brokers (Mosquitto) and their users (MosquittoUser) as custom resources.
--
-- The operator turns a Mosquitto and its MosquittoUsers into Kubernetes objects, and its binary also
-- runs in every broker pod, where it copies the rendered credentials to the broker and signals it.
-- The parts, and the files that model them:
--
-- * api/v1 (Api): the custom resources and their methods, records with the source's fields.
-- * internal/common/labels.go (Labels/Defs): label sets, names, the version label
--   (ExtractVersionFromImage, sanitizeLabelValue), the merge of maps that others write too
--   (MergeLabels, MapEntriesMissing), and the record of applied keys (JoinKeys, RemovedKeys).
-- * internal/auth (Auth/Defs, Hash, Files, Render): check and topicProblem, the $7$ hashes, the
--   passwd and acl files, and Render, which the controller calls with the Secret in force. Render
--   is a chain of results; the source of salts is threaded through it.
-- * internal/builder/configmap.go and config_allowlist.go (Config/Defs): mosquitto.conf and the
--   allowlist of spec.config. The pod's hash annotation is taken of this text.
-- * internal/builder/statefulset.go, affinity.go, service.go, auth_secret.go (Builder/Objects, Pods,
--   Hash, StatefulSets, Services): the objects, StatefulSetHasChanged and MergeStatefulSet. An
--   object is a record of the fields that the operator sets.
-- * internal/reloader (Reloader/Defs, Rounds): Sync, FindProcess, checkTLS and round.once. The
--   target directory and the round's fields are the state; what the kernel answers during a round
--   is a World, the same for one round, and Run is a list of worlds. Reloader/Program is Main: its
--   flags, the one copy of --once, and the rounds, which end with the list of worlds.
-- * internal/controller/mosquitto_controller.go and refusals.go (Controller/Objects, Statuses,
--   Conditions, Passes): Reconcile with its checks, the objects that a Mosquitto owns, and the
--   status. The four functions that reconcile a kind of object are one function, ensure, with a
--   test and a merge for each kind.
-- * internal/controller/users.go (Controller/Users/Verdicts, Users/Collect): the Secrets of the
--   users, the call of Render, the users' statuses.
-- * internal/controller/watches.go (Controller/Watches): the requests that an event adds, and what
--   the cache keeps of a Secret; Controller/Watches/Setup: the indexes, the watches and the number
--   of workers that SetupWithManager registers.
-- * internal/exporter/mapping.go and collector.go (Exporter/Mapping, Collect): the topics of the
--   broker as series, and the collector that a scrape reads.
-- * internal/exporter/run.go (Exporter/Process): the flags and exit codes of the exporter, the
--   options and handlers of its MQTT client, and the certificate that it pins.
-- * cmd/main.go (Operator): the flags of the operator, the options of the manager, the reconciler,
--   and main. cmd/exporter/main.go is one call of the exporter's Main.
-- * internal/builder/statefulset.go and the two run.go together (Containers): the arguments that
--   the builder gives to a container, as the flags of its program read them; Containers/Init has
--   the run of the init container, with internal/auth's files behind the Secret mount.
-- * All of them in a row (Delivered): from the users of a broker and their Secrets, through a pass of
--   the controller, the Secret, and the init container of a pod, to the file that the broker reads.
--
-- A pass of the controller (Controller/Exec) is a function of the cluster (Controller/Cluster: the
-- objects by kind and key, the brokers, the users), of the calls made so far and of the source of
-- salts, to a result and the new state. What it calls outside the repository is the record
-- Outside: which call fails after which calls, when an owner reference is refused, fmt.Sprintf,
-- the text of an error, meta.SetStatusCondition with what its documentation says, the encodings
-- and the cryptography. A call that fails changes nothing, and no other writer changes the cluster
-- within a pass; what was written before a failure stays. A cached read sees the cluster as it is.
-- Controller/Within has one rule for each way to build a step.
--
-- A Go string is a list of bytes, a map an association list (Base/Dict), an error a value
-- (Base/Results) with its format and arguments in place of the printed text. Numbers are natural
-- numbers; where Go's width matters it is written out (strconv.Atoi, the 32-bit hash). Loops are
-- structural recursion. Fuel appears in the decoder of UTF-8 (the number of bytes), in the decimal
-- and hexadecimal printers (20 and 8 digits) and in the exclusive or (32 bits), where it is the
-- length of the result.
--
-- Parameters, because their code is not in this repository: the salts and the key derivation
-- (Auth/Hash), SHA-256 and tls.X509KeyPair (Reloader/Rounds), json.Marshal and ParseQuantity
-- (Builder/StatefulSets), the calls of the API server (Outside), float64 and strconv.ParseFloat
-- (Exporter/Mapping), encoding/pem and crypto/x509 (Exporter/Process), the calls of the manager
-- (Operator, Controller/Watches/Setup), and the system calls (World). Base/Flags has the rules that
-- Go's flag package documents for a command line; which texts are numbers and durations is a
-- parameter of it.
--
-- Not modelled: the MQTT client and the HTTP server of the exporter, logging and its flags, the
-- ticker of the reloader, generated deep copies, and the manifests. Transition times of conditions
-- are left out. In Sync the file modes and the removal of a temporary file that fails are left
-- out, and a read within one round gives the same answer each time.
--
-- The file Base holds what the others share, and Examples the theorems at concrete inputs.
pub mod Base
pub mod Api
pub mod Labels
pub mod Auth
pub mod Config
pub mod Builder
pub mod Reloader
pub mod Controller
pub mod Exporter
pub mod Operator
pub mod Containers
pub mod Delivered
pub mod Examples
