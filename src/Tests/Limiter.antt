-- ===== src/Tests/Limiter.antt =====
-- internal/proxy/limiter.go at concrete inputs.
use go_proxy_server.Prelude.{◌≡◌, refl, ◌<◌, ◌↔◌, true, [], ◌∷◌, Bytes, codes, bytes_dec, arith}
use go_proxy_server.Prelude.GoMap.{lookup, insert}
use go_proxy_server.Prelude.Counting.{count, erase}
use go_proxy_server.Proxy.Limiter.{LimiterConfig, ConnectionLimiter, new_limiter, acquire, release}
use go_proxy_server.Proxy.Limiter.Accounting.{
  Tracks, HasRoom, after_acquire, new_limiter-Tracks, acquire_iff, acquire-Tracks, release-Tracks,
}

abbrev limits : LimiterConfig
limits = record { max_connections = 2; max_per_ip = 1 }

abbrev client : Bytes
client = codes "10.0.0.1"

new_limiter-Tracks_example : Tracks limits (new_limiter limits) []
new_limiter-Tracks_example = new_limiter-Tracks limits

acquire_iff_example :
    ((acquire limits (new_limiter limits) client).1 ≡ true) ↔ HasRoom limits client []
acquire_iff_example = acquire_iff limits (new_limiter limits) client [] (new_limiter-Tracks limits)

acquire-Tracks_example :
    let (l', admitted) = acquire limits (new_limiter limits) client in
    Tracks limits l' (after_acquire admitted client [])
acquire-Tracks_example =
    acquire-Tracks limits (new_limiter limits) client [] (new_limiter-Tracks limits)

abbrev one_open : ConnectionLimiter
one_open = record { sem_cap = 2; sem_used = 1; per_ip = (client, 1) ∷ []; total = 1 }

one_open-acquired : acquire limits (new_limiter limits) client ≡ (one_open, true)
unfolding acquire new_limiter lookup insert
one_open-acquired = refl

one_open-Tracks : Tracks limits one_open (client ∷ [])
one_open-Tracks =
    rw one_open-acquired at
      (acquire-Tracks limits (new_limiter limits) client [] (new_limiter-Tracks limits))

one_client : 0 < count bytes_dec client (client ∷ [])
unfolding count bytes_dec
one_client = omega arith

release-Tracks_example :
    Tracks limits (release limits one_open client) (erase bytes_dec client (client ∷ []))
release-Tracks_example =
    release-Tracks limits one_open client (client ∷ []) one_open-Tracks one_client
