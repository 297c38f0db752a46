-- ===== src/Proxy/Linux/Tests.antt =====
-- Runs of the conversions of protocols (pkg/controllers/proxy/utils.go).
use kube_router.Prelude.{◌≡◌, refl}
use kube_router.Proxy.Linux.{to_syscall_proto, to_svc_proto}

test_proto : to_svc_proto (to_syscall_proto "sctp") ≡ "none"
unfolding to_svc_proto to_syscall_proto
test_proto = refl
