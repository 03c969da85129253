-- ===== src/Lib.antt =====
-- rpaas-operator, the control plane of nginx reverse proxies on Kubernetes, modelled from its Go
-- sources.
--
-- The web API (pkg/web) hands each request to a manager (internal/pkg/rpaas, k8sRpaasManager). A method
-- of the manager reads the custom resource RpaasInstance through the Kubernetes client, checks the
-- request against it, changes a copy, and sends the merge patch between the two (patchInstance), or an
-- update. The controllers (controllers/) then turn the resource into nginx deployments.
--
-- Prelude          shared types and lemmas: Go's integers, slices and maps, package strings
-- Errors, Result   internal/pkg/rpaas/errors.go and Go's `(value, error)`
-- Api              api/v1alpha1/rpaasinstance_types.go: the resource
-- Client           the settings (internal/config/config.go) and the Kubernetes client as an interface
-- Labels           api/v1alpha1/rpaasinstance.go: labels, BelongsToCluster
-- Values           pkg/util/value.go: GetValue
-- Manager          internal/pkg/rpaas/k8s.go: GetInstance, poolNamespace, patchInstance; Frame has what
--                  holds of every method that patches
-- Upstream         internal/pkg/rpaas/upstream.go: the allowed upstreams here, the upstream options
--                  (weights, canaries, load balancing) in Options (checks and defaults), Invariant and
--                  Operations (EnsureUpstreamOptions, DeleteUpstreamOptions)
-- Mutation         internal/pkg/rpaas/mutation.go: Blocks, Routes and Binds, with the manager's methods
--                  that call them; Invariant and Reach for all of them together
-- Metadata         internal/pkg/rpaas/metadata.go
-- Parameters       internal/pkg/rpaas/manager.go: what a request asks for in its parameters (Annotations)
--                  or, as in the past, in its tags (Tags)
-- Plans            k8s.go: the plan of a request (GetPlans, GetFlavors, getPlan, getDefaultPlan,
--                  validatePlan)
-- Instances        k8s.go: CreateInstance, UpdateInstance and DeleteInstance (Operations), with what they
--                  write into the service (Network), the labels of the owner (Owners), the
--                  labels and annotations of an update (Labelled, Annotated), and what is found in
--                  the cluster after them (Created, Updated, Tagged)
-- Purge            internal/pkg/rpaas/nginx/manager.go and internal/purge/cache.go: a path purged
--                  from one server that has a cache (Laws), and from every pod (Pods)
-- Scaling          internal/pkg/rpaas/autoscale.go, and Scale, Start and Stop of k8s.go
-- Certificates     internal/pkg/rpaas/certificates.go: UpdateCertManagerRequest
-- Flavors          internal/pkg/rpaas/k8s.go: validateFlavors
-- ByteMaps         Go's map[string][]byte, the data of secrets and config maps
-- Files            internal/pkg/rpaas/extra_files.go: the extra files, a config map for each
-- Controller       controllers/controller.go: the frame that the reconcilers of generated objects share
--                  (get, then create, update or delete); Tickets (reconcileSecretForSessionTickets,
--                  newSecretForTLSSessionTickets), CronJob (reconcileCronJobForSessionTickets,
--                  nameForCronJob), Autoscaler (reconcileHPA, newHPA, reconcileKEDA) and Disruption
--                  (reconcilePDB, newPDB)
-- Servers          internal/pkg/rpaas/nginx/servers.go: the servers of the nginx configuration
-- Target           pkg/web/target/multi-cluster.go: the cluster that a request is for, and the cache of
--                  the managers
-- Samples          a cluster with one instance, at which the theorems are applied
--
-- A method that patches is `modify m name f`: `f` is what the method does to the instance that it has
-- read. The Kubernetes client is a parameter, with its documented behaviour as the hypotheses ClientLaws
-- (Client.antt): they speak of a client that nobody else writes beside. The state of the cluster is
-- passed through explicitly. Errors carry the constant format of their message; the arguments put into
-- it are left out. A nil slice or map is the empty list, a Go int is an integer whose products wrap at
-- 64 bits, a panic is an error value, and a string is a text in valid UTF-8.
--
-- Parameters: the Kubernetes clients of instances, config maps and generated objects, url.Parse, the cron
-- parser, IsDNS1123Subdomain, the deny patterns of the settings, the number that strconv.Atoi gives, the
-- reads of config maps, issuers, flavors and files, base64, random bytes, util.SHA256 (what spew prints,
-- hashed), the label selector of the nginx operator, the rendering of text templates, DeepDerivative, the
-- construction of clients, the decoding of JSON, the comparison of versions, the validity of labels and
-- of their values, the namespaces, plans and flavors of the cluster, and the answers of an nginx server.
-- Every loop over a slice or a map is structural recursion. The decimal digits of a number
-- (strconv.Itoa) take the number itself as fuel, which is enough since each step divides by ten and so
-- makes it smaller.
--
-- Not modelled: the HTTP layer, the command line tool and the clients; the other reconcilers of the
-- controllers and the rendering of the nginx configuration templates; exec, debug and log streams; the
-- schemas of the parameters that are shown to a user; two clients that write one instance at the same time.
pub mod Api
pub mod ByteMaps
pub mod Certificates
pub mod Client
pub mod Controller
pub mod Errors
pub mod Files
pub mod Flavors
pub mod Instances
pub mod Labels
pub mod Manager
pub mod Metadata
pub mod Mutation
pub mod Parameters
pub mod Plans
pub mod Prelude
pub mod Purge
pub mod Result
pub mod Samples
pub mod Scaling
pub mod Servers
pub mod Target
pub mod Upstream
pub mod Values
