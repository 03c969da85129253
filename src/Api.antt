-- ===== src/Api.antt =====
-- api/v1alpha1/rpaasinstance_types.go: the custom resource. Fields that no modelled operation reads
-- or writes are left out; a nil slice or map is the empty list, a pointer is an `Option`.
use rpaas_operator.Prelude.{ℕ, String, Bool, List, Option}
use rpaas_operator.Prelude.Int.{ℤ}

-- corev1.ConfigMapKeySelector
pub record ConfigMapKeySelector : Type 0 where
  pub name : String
  pub key : String
  pub optional : Option Bool

pub record ValueSource : Type 0 where
  pub config_map_key_ref : Option ConfigMapKeySelector
  pub namespace : String

pub record Value : Type 0 where
  pub value : String
  pub value_from : Option ValueSource

pub record AllowedUpstream : Type 0 where
  pub host : String
  pub port : ℤ

pub record Bind : Type 0 where
  pub name : String
  pub host : String

pub record TrafficShapingPolicy : Type 0 where
  pub weight : ℤ
  pub weight_total : ℤ
  pub header : String
  pub header_value : String
  pub header_pattern : String
  pub cookie : String

-- LoadBalanceAlgorithm and its values.
abbrev pub LoadBalanceAlgorithm : Type 0
LoadBalanceAlgorithm = String

abbrev pub load_balance_round_robin : LoadBalanceAlgorithm
load_balance_round_robin = "round_robin"

abbrev pub load_balance_consistent_hash : LoadBalanceAlgorithm
load_balance_consistent_hash = "chash"

abbrev pub load_balance_ewma : LoadBalanceAlgorithm
load_balance_ewma = "ewma"

pub record UpstreamOptions : Type 0 where
  pub primary_bind : String
  pub canary_binds : List String
  pub traffic_shaping_policy : TrafficShapingPolicy
  pub load_balance : LoadBalanceAlgorithm
  pub load_balance_hash_key : String

pub record DnsConfig : Type 0 where
  pub zone : String
  pub ttl : Option ℤ

pub record Location : Type 0 where
  pub server_name : String
  pub path : String
  pub destination : String
  pub content : Option Value
  pub force_https : Bool

-- BlockType is a string type in the source.
abbrev pub BlockType : Type 0
BlockType = String

pub record ServerBlock : Type 0 where
  pub server_name : String
  pub type : BlockType
  pub content : Option Value
  pub extend : Bool

pub record File : Type 0 where
  pub name : String
  pub config_map : Option ConfigMapKeySelector

pub record CertManager : Type 0 where
  pub name : String
  pub issuer : String
  pub dns_names : List String
  pub ip_addresses : List String
  pub dns_names_default : Bool

pub record DynamicCertificates : Type 0 where
  pub cert_manager : Option CertManager
  pub cert_manager_requests : List CertManager

pub record ScaleDown : Type 0 where
  pub stabilization_window_seconds : Option ℤ
  pub units_policy_value : Option ℤ
  pub percent_policy_value : Option ℤ

pub record Behavior : Type 0 where
  pub scale_down : Option ScaleDown

pub record ScheduledWindow : Type 0 where
  pub min_replicas : ℤ
  pub start : String
  pub finish : String
  pub timezone : String

-- kedav1alpha1.ScaledObjectAuthRef
pub record ScaledObjectAuthRef : Type 0 where
  pub name : String
  pub kind : String

pub record AutoscaleKedaOptions : Type 0 where
  pub enabled : Bool
  pub prometheus_server_address : String
  pub rps_query_template : String
  pub rps_authentication_ref : Option ScaledObjectAuthRef
  pub polling_interval : Option ℤ
  pub timezone : String

pub record RpaasInstanceAutoscaleSpec : Type 0 where
  pub max_replicas : ℤ
  pub min_replicas : Option ℤ
  pub target_cpu_utilization_percentage : Option ℤ
  pub target_memory_utilization_percentage : Option ℤ
  pub target_requests_per_second : Option ℤ
  pub schedules : List ScheduledWindow
  pub keda_options : Option AutoscaleKedaOptions
  pub behavior : Option Behavior

-- A Go map[string]string: its entries, each key once.
abbrev pub StringMap : Type 0
StringMap = List (String × String)

-- The parts of nginxv1alpha1.NginxService and NginxPodTemplateSpec that the manager writes.
pub record NginxService : Type 0 where
  pub annotations : StringMap
  pub labels : StringMap
  pub load_balancer_ip : String

-- The controllers read of a container only that it is there.
pub record Container : Type 0 where
  pub name : String

-- corev1.Affinity, which is only handed on, is a text.
pub record PodTemplate : Type 0 where
  pub affinity : Option String
  pub annotations : StringMap
  pub labels : StringMap
  pub containers : List Container

pub record TlsSessionTicket : Type 0 where
  pub keep_last_keys : ℕ
  pub key_rotation_interval : ℕ
  pub key_length : ℕ
  pub image : String

pub record TlsSessionResumption : Type 0 where
  pub session_ticket : Option TlsSessionTicket

-- api/v1alpha1/rpaasplan_types.go; what is only handed on is one text.
pub record RpaasPlanSpec : Type 0 where
  pub image : String
  pub description : String
  pub is_default : Bool
  pub rest : String

pub record RpaasInstanceSpec : Type 0 where
  pub replicas : Option ℤ
  pub plan_name : String
  pub plan_namespace : String
  pub plan_template : Option RpaasPlanSpec
  pub flavors : List String
  pub binds : List Bind
  pub upstream_options : List UpstreamOptions
  pub blocks : List (BlockType × Value)
  pub server_blocks : List ServerBlock
  pub locations : List Location
  pub dns : Option DnsConfig
  pub service : Option NginxService
  pub files : List File
  pub pod_template : PodTemplate
  pub autoscale : Option RpaasInstanceAutoscaleSpec
  pub allowed_upstreams : List AllowedUpstream
  pub dynamic_certificates : Option DynamicCertificates
  pub shutdown : Bool
  pub tls_session_resumption : Option TlsSessionResumption
  pub enable_pod_disruption_budget : Option Bool
  pub config_history_limit : Option ℤ

pub record RpaasInstance : Type 0 where
  pub name : String
  pub namespace : String
  pub labels : StringMap
  pub annotations : StringMap
  pub spec : RpaasInstanceSpec
