-- ===== src/Collector/Concrete/Kubernetes.antt =====
-- The Kubernetes collector (src/infrastructure/collectors/kubernetes_collector.py).
use ai_sre_platform_for_auto.Common.{ℕ}
use ai_sre_platform_for_auto.Errors.{Result, ok, raise}
use ai_sre_platform_for_auto.Values.{Fields}
use ai_sre_platform_for_auto.Executor.Linux.{CommandResult}
use ai_sre_platform_for_auto.Collector.{CollectorResult, kubernetes}
use ai_sre_platform_for_auto.Collector.Concrete.{
  CommandExecutor, broken, resolve_hostname, result_of,
}
use ai_sre_platform_for_auto.Collector.Concrete.Logs.{output}
use ai_sre_platform_for_auto.Collector.Concrete.Docker.{fetch, concluded}
use ai_sre_platform_for_auto.Collector.{Text, ℤ}
use ai_sre_platform_for_auto.Common.{[], false, true, ◌++◌, ◌∷◌}
use ai_sre_platform_for_auto.Collector.{List}
use ai_sre_platform_for_auto.Collector.Concrete.{lit}
use ai_sre_platform_for_auto.Collector.Concrete.{strip}

module _ {S : Type 0} where
  -- `kubectl get <kind> --all-namespaces -o json`, whose failures are listed
  unfoldable pub get_all_namespaces : CommandExecutor S → Text → S → (Text × List Text) × S
  get_all_namespaces execute kind s =
      fetch execute [] (lit "kubectl get " ++ (kind ++ lit " failed: "))
        (lit "kubectl get " ++ (kind ++ lit " execution failed: ")) (lit "kubectl")
        (lit "get" ∷ kind ∷ lit "--all-namespaces" ∷ lit "-o" ∷ lit "json" ∷ []) s

module _ {S Float : Type 0} (clock : S → ℕ) (elapsed : S → S → ℤ)
    (parse : Text → Text → Text → Text → Text → Text → Text → ℕ → Result (Fields Float)) where
  -- step 2 to the end, after the namespaces; `s` is where the run began
  unfoldable pub kubernetes_details :
      CommandExecutor S → S → Text → Text → S → CollectorResult Float × S
  unfolding get_all_namespaces
  kubernetes_details execute s hostname namespaces_json s₁ =
      let ((nodes_json, e₁), s₂) =
        fetch execute [] (lit "kubectl get nodes failed: ")
          (lit "kubectl get nodes execution failed: ") (lit "kubectl")
          (lit "get" ∷ lit "nodes" ∷ lit "-o" ∷ lit "json" ∷ []) s₁ in
      let ((pods_json, e₂), s₃) = get_all_namespaces execute (lit "pods") s₂ in
      let ((deployments_json, e₃), s₄) = get_all_namespaces execute (lit "deployments") s₃ in
      let ((services_json, e₄), s₅) = get_all_namespaces execute (lit "services") s₄ in
      let (version_json, s₆) =
        output execute (lit "kubectl") (lit "version" ∷ lit "-o" ∷ lit "json" ∷ []) s₅ in
      let (events_json, s₇) =
        output execute (lit "kubectl")
          (lit "get" ∷ lit "events" ∷ lit "--all-namespaces" ∷ lit "-o" ∷ lit "json" ∷ []) s₆ in
      (
        result_of clock elapsed (lit "KubernetesCollector") kubernetes s s₇ hostname (
            concluded (e₁ ++ (e₂ ++ (e₃ ++ e₄))) (
              parse namespaces_json nodes_json pods_json deployments_json services_json events_json
                version_json (clock s))),
        s₇,
      )

  -- step 1: the answer to the query for the namespaces
  unfoldable pub kubernetes_probed :
      CommandExecutor S → S → Text → Result CommandResult → S → CollectorResult Float × S
  unfolding kubernetes_details
  kubernetes_probed execute s hostname (ok r) s₁ = elim r.success [
    | true ↦ kubernetes_details execute s hostname r.stdout s₁
    | false ↦ (
      result_of clock elapsed (lit "KubernetesCollector") kubernetes s s₁ hostname
          (broken (lit "Kubernetes cluster unreachable: " ++ strip r.stderr)),
      s₁,
    )
  ]
  kubernetes_probed execute s hostname (raise k message) s₁ = (
    result_of clock elapsed (lit "KubernetesCollector") kubernetes s s₁ hostname
        (broken (lit "Kubernetes client unavailable: " ++ message)),
    s₁,
  )

  -- `KubernetesCollector.collect`
  unfoldable pub kubernetes_collect : CommandExecutor S → S → CollectorResult Float × S
  unfolding kubernetes_probed
  kubernetes_collect execute s =
      let (hostname, s₁) = resolve_hostname execute s in
      let (r, s₂) =
        execute (lit "kubectl") (lit "get" ∷ lit "namespaces" ∷ lit "-o" ∷ lit "json" ∷ []) s₁ in
      kubernetes_probed execute s hostname r s₂
