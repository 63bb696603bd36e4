-- ===== src/Kubernetes.antt =====
-- modules/kubernetes/configmap_value.go, secret_value.go and value_input.go: the modules
-- `kubernetes_configmap_value` and `kubernetes_secret_value`.
pub mod ValueInput
pub mod ConfigMapValue
pub mod Policy
pub mod Written
pub mod Validate
pub mod Samples
