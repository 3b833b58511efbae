-- ===== src/Lib.antt =====
-- kube-graffiti, a mutating webhook that paints labels and annotations on the objects of a Kubernetes
-- cluster, or blocks them.
--
-- A rule (pkg/graffiti) has matchers and a payload. The API server posts an admission review to the
-- webhook (pkg/webhook); the handler finds the rule by the path of the URL, the rule extracts the
-- object, flattens it into a field map, tests its selectors, and answers with a JSON patch, a refusal or
-- no change. At the start, the configuration (pkg/config) is validated, each rule is added to the server
-- under a path that its name spells, and is registered with the API server. If asked to, the program
-- then goes through the objects that exist and patches those that a rule matches (pkg/existing).
--
--   Common       results of Go functions that return an error, tests, lists; Dict: Go maps, with
--                reflect.DeepEqual; Decimal: strconv.Itoa; Http: response writers and
--                the patterns of a mux, of net/http
--   Log          pkg/log/log.go: the levels and the loggers of the components
--   Kubernetes   the clientset of client-go, as far as the program calls it
--   Graffiti     pkg/graffiti: Operator is booleanoperator_enumer.go and _mapstructure.go, Selectors
--                and Matchers matchers.go, FieldMap fields.go, Patch patch.go (createPatchOperand in the
--                steps modify and patch_text), Payload payload.go with its checks in Payload/Validate,
--                Rule graffiti.go (Mutate, MutateAdmission); Json and Libs are what they take from
--                encoding/json, text/template and the vendored packages; JsonText is a
--                grammar of JSON texts
--   Webhook      pkg/webhook: Handler is handler.go, Server and PathEscape server.go, Registration
--                registration.go
--   Config       pkg/config/config.go
--   Healthcheck  pkg/healthcheck/healthcheck.go
--   Cmd          cmd/command.go: initWebhookServer; Settings is init, setDefaults and loadConfig, Run
--                is initRootCmd and runRootCmd, with getKubeClients and initExistingCheck, and Execute
--                is rootCmd and Execute, with main.go
--   Existing     pkg/existing: Groups, Paging, Objects and Targets are existing.go, from the loops over
--                rules and API groups down to the patch of one object; Namespaces is
--                namespace_selector.go and namespace_cache.go, Discovery is InitKubeClients
--   Examples     tests and runs of the models at concrete inputs
--
-- A function that returns a value and an error returns a Result. Its case abort is either panics,
-- after which the deferred calls are run, or exits, the end of the program by os.Exit after a log
-- line at level Fatal, after which they are not. A Go map is an association list, none for a nil
-- map, whose order is the order in which a range runs over it; the theorems that need it suppose
-- that no key stands twice. Byte slices are texts, and a nil patch is none. A number in JSON is its
-- text, as the decoder keeps it. The configurations of the API server are an abstract state with
-- the client's calls as a parameter, as are the objects of the cluster. Where a theorem says that
-- other code does not panic, it supposes that its calls return a value or an error. Only the loop
-- over the pages of a listing runs on fuel; each page uses up one, so that it needs as much as
-- there are pages. All other recursion is on the data.
--
-- cobra, viper, mapstructure, zerolog and client-go are records of what the program calls, over
-- states that they are free to choose: the settings are read from viper where the code reads them,
-- after the defaults and the file. A goroutine (the two listeners, the reflector of the namespace
-- cache) is what its start does to the world; what it does later is not interleaved with the steps of
-- the program.
--
-- Not modelled: the lines that are logged; how cobra takes the arguments, and how viper reads its file
-- and decodes it; List and Watch of the namespace cache, which only its reflector calls; the vendored
-- packages.
pub mod Common
pub mod Dict
pub mod Decimal
pub mod Log
pub mod Http
pub mod Kubernetes
pub mod Graffiti
pub mod Webhook
pub mod Config
pub mod Healthcheck
pub mod Existing
pub mod Cmd
pub mod Examples
