-- ===== src/Names.antt =====
-- internal/controller/names.go: the fixed names of what the operator writes.
use agentgateway_educates_op.Base.{String, [], ◌∷◌, Dict}

abbrev pub agentgateway_release_name : String
agentgateway_release_name = "agentgateway"

abbrev pub agentgateway_crds_release_name : String
agentgateway_crds_release_name = "agentgateway-crds"

abbrev pub rate_limit_release_name : String
rate_limit_release_name = "agentgateway-ratelimit"

abbrev pub gateway_class_name : String
gateway_class_name = "agentgateway"

abbrev pub gateway_name : String
gateway_name = "agentgateway-educates"

abbrev pub legacy_gateway_name : String
legacy_gateway_name = "agentgateway"

abbrev pub gateway_listener_name : String
gateway_listener_name = "llm"

abbrev pub parameters_name : String
parameters_name = "agentgateway-educates"

abbrev pub policy_name : String
policy_name = "agentgateway-educates-apikeys"

abbrev pub rate_limit_domain : String
rate_limit_domain = "agentgateway"

abbrev pub rate_limit_service_name : String
rate_limit_service_name = "agentgateway-ratelimit"

abbrev pub agentgateway_group : String
agentgateway_group = "agentgateway.dev"

abbrev pub agentgateway_version : String
agentgateway_version = "v1alpha1"

abbrev pub kind_policy : String
kind_policy = "AgentgatewayPolicy"

abbrev pub kind_model : String
kind_model = "AgentgatewayModel"

abbrev pub kind_parameters : String
kind_parameters = "AgentgatewayParameters"

abbrev pub gateway_api_group : String
gateway_api_group = "gateway.networking.k8s.io"

abbrev pub gateway_api_version : String
gateway_api_version = "v1"

abbrev pub kind_gateway : String
kind_gateway = "Gateway"

abbrev pub kind_gateway_class : String
kind_gateway_class = "GatewayClass"

abbrev pub kind_http_route : String
kind_http_route = "HTTPRoute"

abbrev pub managed_by_label : String
managed_by_label = "app.kubernetes.io/managed-by"

abbrev pub managed_by_value : String
managed_by_value = "agentgateway-educates-operator"

-- The labels of what the operator writes.
abbrev pub managed_labels : Dict String
managed_labels = (managed_by_label, managed_by_value) ∷ []
