-- ===== src/Lib.antt =====
-- cnpg-ha, an operator that keeps one PostgreSQL primary among several CloudNativePG clusters.
--
-- An HACluster names a primary site and its replica sites. On every reconcile the controller reads
-- each site's CNPG Cluster (internal/health) through a client of its own for the primary and a
-- cached remote client for each replica (internal/remoteclient), reads WAL positions where a probe
-- is configured (internal/postgres), follows a promotion that is asked for by annotation or due
-- after sustained failures by the steps of internal/promotion, reports in the status, in events
-- and in metrics (internal/metrics), and makes the other sites follow the primary.
--
-- The modules and the code:
-- Base: helpers. Base.Message has the texts and errors as formats with arguments, so that
--   `errors.Is` of a NotFound can look through `%w`; Base.Exec has actions on a state that may fail,
--   where the state that was reached comes back beside the error.
-- Api: api/v1alpha1/hacluster_types.go. Value: the dynamic values of unstructured objects.
-- Platform: the Kubernetes clients and servers, the accessors of unstructured objects, the loader
--   of kubeconfigs, the database driver, the clock and float64 arithmetic, as a record that the other
--   modules take as a parameter. Platform.Laws: their documented behaviour, as hypotheses.
-- Health: internal/health/health.go. Promotion: internal/promotion/promotion.go, an action on the
--   world for each function, with Fencing, Service, Role and Following for what each guarantees.
-- Remote: internal/remoteclient/remoteclient.go. Postgres: internal/postgres/probe.go.
-- Metrics: internal/metrics/metrics.go, where a call of a collector is a value. Metrics.Registry: the
--   Prometheus collectors, a parameter with the law that a call acts on the series that it names.
-- Controller: internal/controller/hacluster_controller.go, in the order of a reconcile: Observation
--   (siteObservation and lookups), Observe, Primary (decideCurrentPrimary and detectSplitBrain),
--   Target (chooseTarget), Timing, Effect (promotionEffect), State (the reconciler's fields, events,
--   counters, conditions), Failover (runPromotion), Manual (handlePromoteAnnotation), Automatic
--   (handleAutomaticFailover), Topology (reconcileReplicaTopology), Status (statuses, conditions,
--   metrics) and Reconcile. Automatic.Machine is the automatic failover as an abstract machine.
--   Frame has, for a relation of states, what makes every run of each part lie in it, by the rules of
--   Base.Moves; History has the operator over time: reconciles, restarts and outside changes in any
--   order.
-- Manager: cmd/main.go, on a runtime that stands for controller-runtime; an error is an exit with 1.
-- Sim: a concrete platform that satisfies the laws. Examples: tests on it.
--
-- Bounds: counters and durations are native numbers, where the code has an int and an int64 of
-- nanoseconds made from int32 fields. Times are those in memory, in nanoseconds; what is stored of
-- them has whole seconds. LSNs are computed with the wrap of 64 bits written out, their difference
-- too. All loops are structural recursion on lists and texts, so nothing runs on fuel.
--
-- Not modelled: logging; contexts and timeouts; an update that a server makes although its answer
-- is lost; other writers between two calls of one step; the mutexes, whose critical sections are
-- single steps; the driver, which takes the connection URL by its parts; what runs behind the
-- runtime that cmd/main.go builds and starts; generated code.
pub mod Base
pub mod Api
pub mod Value
pub mod Platform
pub mod Health
pub mod Promotion
pub mod Remote
pub mod Postgres
pub mod Metrics
pub mod Controller
pub mod Manager
pub mod Sim
pub mod Examples
