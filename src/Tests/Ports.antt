-- ===== src/Tests/Ports.antt =====
-- internal/tunnel/managed_server.go: the choice of a port at concrete inputs.
use go_proxy_server.Prelude.{ℕ, ◌+◌, ◌-◌, ◌≡◌, ◌↔◌, [], ◌∷◌, some, ok, ite, ℕ_discrete}
use go_proxy_server.Tunnel.Ports.{Listen, listening, in_use, allocate_new_port}
use go_proxy_server.Tunnel.Ports.FirstFree.{FirstFree, allocate_new_port_iff}

-- Port 8001 is in use.
abbrev busy : ℕ → Listen
busy port = ite (ℕ_discrete port 8001) in_use listening

allocate_new_port_iff_example :
    (allocate_new_port busy (some (8000 ∷ [])) 8000 8010 ≡ ok 8002)
    ↔ FirstFree busy (8000 ∷ []) 8000 (8010 + 1 - 8000) 8002
allocate_new_port_iff_example = allocate_new_port_iff busy (8000 ∷ []) 8000 8010 8002
