-- ===== src/Platform/Parameters/Ports.antt =====
-- The Service's ports, as the admin interface comes and goes.
use agentgateway_educates_op.Base.{List}
use agentgateway_educates_op.Sdk.Json.{Json}
