-- ===== src/Runtime/Overrides.antt =====
-- internal/runtime/config.go: `ApplyOverrides`.
use go_proxy_server.Prelude.{◌≡◌, refl, Bool, true, Option, none, some, ℤ}
use go_proxy_server.Runtime.Config.{WebConfig, ProxyConfig, Config, Overrides}

unfoldable pub override_web : Option ℤ → WebConfig → WebConfig
override_web none w = w
override_web (some port) w = record w { enabled = true; port = port }

unfoldable pub override_port : Option ℤ → ProxyConfig → ProxyConfig
override_port none p = p
override_port (some port) p = record p { enabled = true; port = port }

unfoldable pub override_bind_listen : Option Bool → ProxyConfig → ProxyConfig
override_bind_listen none p = p
override_bind_listen (some b) p = record p { enabled = true; bind_listen = b }

-- `ApplyOverrides`
unfoldable pub apply_overrides : Config → Overrides → Config
unfolding override_web override_port override_bind_listen
apply_overrides cfg o = record cfg {
  web = override_web o.web_port cfg.web;
  socks = override_bind_listen o.socks_bind_listen (override_port o.socks_port cfg.socks);
  http = override_bind_listen o.http_bind_listen (override_port o.http_port cfg.http);
}

-- The later value, where there is one.
abbrev pub later : {A : Type 0} → Option A → Option A → Option A
later (some x) _ = some x
later none y = y

-- Two sets of overrides as one, of which the second has the last word.
abbrev pub merge : Overrides → Overrides → Overrides
merge o1 o2 = record {
  web_port = later o2.web_port o1.web_port;
  socks_port = later o2.socks_port o1.socks_port;
  socks_bind_listen = later o2.socks_bind_listen o1.socks_bind_listen;
  http_port = later o2.http_port o1.http_port;
  http_bind_listen = later o2.http_bind_listen o1.http_bind_listen;
}

override_web-override_web :
    (w : WebConfig) (x y : Option ℤ)
    → override_web y (override_web x w) ≡ override_web (later y x) w
unfolding override_web
override_web-override_web w x none = refl
override_web-override_web w none (some y) = refl
override_web-override_web w (some x) (some y) = refl

override_proxy_lem :
    (p : ProxyConfig) (x y : Option ℤ) (b c : Option Bool)
    → override_bind_listen c (override_port y (override_bind_listen b (override_port x p)))
      ≡ override_bind_listen (later c b) (override_port (later y x) p)
unfolding override_port override_bind_listen
override_proxy_lem p none none none none = refl
override_proxy_lem p none none none (some c) = refl
override_proxy_lem p none none (some b) none = refl
override_proxy_lem p none none (some b) (some c) = refl
override_proxy_lem p none (some y) none none = refl
override_proxy_lem p none (some y) none (some c) = refl
override_proxy_lem p none (some y) (some b) none = refl
override_proxy_lem p none (some y) (some b) (some c) = refl
override_proxy_lem p (some x) none none none = refl
override_proxy_lem p (some x) none none (some c) = refl
override_proxy_lem p (some x) none (some b) none = refl
override_proxy_lem p (some x) none (some b) (some c) = refl
override_proxy_lem p (some x) (some y) none none = refl
override_proxy_lem p (some x) (some y) none (some c) = refl
override_proxy_lem p (some x) (some y) (some b) none = refl
override_proxy_lem p (some x) (some y) (some b) (some c) = refl

-- Overrides applied one after the other are their merge applied once: the last word wins for each
-- setting by itself, and a service that an override has enabled stays enabled.
pub apply_overrides-apply_overrides :
    (cfg : Config) (o1 o2 : Overrides)
    → apply_overrides (apply_overrides cfg o1) o2 ≡ apply_overrides cfg (merge o1 o2)
unfolding apply_overrides
apply_overrides-apply_overrides cfg o1 o2 =
    rw (override_web-override_web cfg.web o1.web_port o2.web_port) (
      rw
        (override_proxy_lem cfg.socks o1.socks_port o2.socks_port o1.socks_bind_listen
          o2.socks_bind_listen)
        (rw (
          override_proxy_lem cfg.http o1.http_port o2.http_port o1.http_bind_listen
            o2.http_bind_listen)))
