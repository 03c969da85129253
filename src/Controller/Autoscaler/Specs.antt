-- ===== src/Controller/Autoscaler/Specs.antt =====
-- The parts of the Kubernetes and KEDA resources that the reconciler writes for an autoscaler:
-- autoscaling/v2 HorizontalPodAutoscalerSpec and keda.sh/v1alpha1 ScaledObjectSpec, without the fields
-- that are one constant (the kind of the target, the API version).
use rpaas_operator.Prelude.{String, List, Option}
use rpaas_operator.Prelude.Equality.{string-discrete, ℤ-discrete}
use rpaas_operator.Prelude.Int.{ℤ}
use rpaas_operator.Api.{StringMap, ScaledObjectAuthRef}

-- A metric on the average utilization of a resource, of one container or of the whole pod.
pub data Metric : Type 0 where
  container_resource : (resource container : String) → (average_utilization : ℤ) → Metric
  resource : String → (average_utilization : ℤ) → Metric

pub record ScalingPolicy : Type 0 where
  pub type : String
  pub value : ℤ
  pub period_seconds : ℤ

pub record ScalingRules : Type 0 where
  pub stabilization_window_seconds : Option ℤ
  pub policies : List ScalingPolicy

-- `behavior` has the rules for scaling down, the only ones that are set.
pub record HpaSpec : Type 0 where
  pub target : String
  pub min_replicas : Option ℤ
  pub max_replicas : ℤ
  pub metrics : List Metric
  pub behavior : Option ScalingRules

pub record ScaleTrigger : Type 0 where
  pub type : String
  pub metric_type : String
  pub metadata : StringMap
  pub authentication_ref : Option ScaledObjectAuthRef

pub record ScaledObjectSpec : Type 0 where
  pub target : String
  pub min_replica_count : Option ℤ
  pub max_replica_count : Option ℤ
  pub polling_interval : Option ℤ
  pub triggers : List ScaleTrigger
  pub hpa_name : String
  pub behavior : Option ScalingRules

-- The nginx resource of the instance, as far as it is read: its name, and of its status the names of the
-- deployments.
pub record Nginx : Type 0 where
  pub name : String
  pub deployments : List String

-- reflect.DeepEqual on two specs.
pub hpa_spec-discrete : Discrete HpaSpec
hpa_spec-discrete = hlevel (string-discrete, ℤ-discrete)

pub scaled_object_spec-discrete : Discrete ScaledObjectSpec
scaled_object_spec-discrete = hlevel (string-discrete, ℤ-discrete)
